-- ===== src/Viewer/Session/Rest.antt =====
-- What it is that a session of viewer/src/session.ts rests, and that one that is stopped does.
pub mod Steps
pub mod Runs
use laptop_as_a_second_monit.Common.{
  ℕ, ◌≡◌, refl, Bool, true, false, ◌&&◌, ◌||◌, not, Option, none, some, List, [], ◌∷◌, Str, codes,
  str_eq, ◌==◌, leb, ltb, length, if◌then◌else◌, arith, Bool-cases, Option-cases, inl, inr, All,
  All-append,
}
use laptop_as_a_second_monit.Protocol.Json.{
  Json, Members, Number, get, null, boolean, number, string, array, object,
}
use laptop_as_a_second_monit.Protocol.Message.{PairResponse}
use laptop_as_a_second_monit.Viewer.Session.State.{
  Session, Peer, Channel, probe_reply, Socket, Effect, stop_tracks, connection_stats, show_status,
  show_phase, paired, request_pair, connect, ping, new_peer, set_remote, add_candidate, video,
  Input, Outcome, ◌>>>◌,
}
use laptop_as_a_second_monit.Viewer.Session.State.Methods.{
  closing, disconnecting, stop, mark, note, reset_peer, close_socket,
}
use laptop_as_a_second_monit.Viewer.Session.Signals.{
  start, on_pair_response, on_open, open_one, open_current, on_error, on_close, is_opening,
  is_current, on_heartbeat, beat, on_retry, retry_with,
}
use laptop_as_a_second_monit.Viewer.Session.Direct.Handlers.{
  on_connection_state, on_deadline, expire, on_ice_state, on_candidate_error, on_candidate,
  on_track,
}
use laptop_as_a_second_monit.Viewer.Session.Direct.HostChannel.{
  on_sample, on_channel_message, on_probe, send_to_host, channel_effects, request_or_diagnostics,
  read_probe, number_of, to_channel,
}
use laptop_as_a_second_monit.Viewer.Session.Messages.{Frame, pong, served, on_message}
use laptop_as_a_second_monit.Viewer.Session.Run.{
  Event, starts, stops, presents, retries, beats, fails, pairs, opens, closes, receives, connects,
  expires, checks, misses, finds, plays, samples, channels, hears, probes, step, run,
}
use laptop_as_a_second_monit.Viewer.Session.Invariant.{is_gone, gone_socket-is_gone}

-- Stopped, with nothing that could wake it.
pub record IsResting (s : Session) : Type 0 where
  pub stopped : s.stopped ≡ true
  pub peer : s.peer ≡ none
  pub retry : s.retry_timer ≡ none
  pub heartbeat : s.heartbeat_timer ≡ none
  pub deadline : s.deadline ≡ none
  pub stats : s.stats_timer ≡ false
  pub socket : is_gone s.socket ≡ true

-- What starts or serves a connection.
abbrev pub is_active : Effect → Bool
is_active (show_status t) = true
is_active (show_phase p) = true
is_active (paired room token) = true
is_active (request_pair code attempt) = true
is_active (connect i room ticket) = true
is_active (ping i) = true
is_active (new_peer i) = true
is_active (set_remote i t sdp) = true
is_active (add_candidate i c) = true
is_active (video i) = true
is_active _ = false

abbrev pub AllQuiet : List Effect → Type 0
AllQuiet = All (λ e. is_active e ≡ false)

abbrev pub Rests : Outcome → Type 0
Rests o = IsResting o.0 × AllQuiet o.1

closing_quiet : (o : Option Peer) → AllQuiet (closing o)
closing_quiet none = tt
closing_quiet (some p) = (refl, tt)

disconnecting_quiet : (o : Option Socket) → AllQuiet (disconnecting o)
disconnecting_quiet none = tt
disconnecting_quiet (some w) = (refl, tt)

stop_tracks_quiet : (b : Bool) → AllQuiet (if b then stop_tracks ∷ [] else [])
stop_tracks_quiet true = (refl, tt)
stop_tracks_quiet false = tt

pub stop-Rests : (s : Session) → Rests (stop s)
unfolding stop ◌>>>◌ reset_peer close_socket
stop-Rests s =
    let quiet = λ (e : Effect). is_active e ≡ false in
    (
      record {
        stopped = refl;
        peer = refl;
        retry = refl;
        heartbeat = refl;
        deadline = refl;
        stats = refl;
        socket = gone_socket-is_gone s.socket;
      },
      All-append quiet _ _
          (All-append quiet _ _
            (All-append quiet (closing s.peer) (connection_stats true ∷ []) (closing_quiet s.peer)
              (refl, tt))
            (disconnecting_quiet s.socket))
          (stop_tracks_quiet s.stream),
    )

-- ===== src/Viewer/Tests/Session.antt =====
-- The properties of viewer/src/session.ts at concrete sessions.
use laptop_as_a_second_monit.Common.{
  ℕ, ◌+◌, ◌≡◌, refl, true, false, Option, none, some, List, [], ◌∷◌, Str, codes, arith,
  if◌then◌else◌, not, ◌||◌,
}
use laptop_as_a_second_monit.Protocol.Json.{Json}
use laptop_as_a_second_monit.Protocol.Message.{
  offer, answer, relay, description, paired, ready, peer_left,
}
use laptop_as_a_second_monit.Viewer.Session.State.{
  by_code, transmit, Peer, up, fresh, Ready, Candidate, Session, Input, to_start,
}
use laptop_as_a_second_monit.Viewer.Session.State.Methods.{new_session, stop, retry_delay}
use laptop_as_a_second_monit.Viewer.Session.Signals.{is_current, on_close, on_error}
use laptop_as_a_second_monit.Viewer.Session.Direct.{◌>>?◌}
use laptop_as_a_second_monit.Viewer.Session.Messages.{served, message, on_description}
use laptop_as_a_second_monit.Viewer.Session.Run.{
  Event, starts, pairs, opens, receives, connects, closes, stops, run,
}
use laptop_as_a_second_monit.Viewer.Session.Media.{IsKept, on_close-IsKept}
use laptop_as_a_second_monit.Viewer.Session.Early.{on_ices, IsServed, on_ices-on_description}
use laptop_as_a_second_monit.Viewer.Session.Rest.{IsResting, Rests}
use laptop_as_a_second_monit.Viewer.Session.Rest.Runs.{stop-IsResting}

abbrev no_json : Str → Option Json
no_json raw = none

abbrev at : ℕ → Input
at now = record {
  now = now;
  wall = now + 1700000000000;
  local_sdp = some (codes "v=0");
  remote_ok = true;
  accepts = λ c. true;
  code_hash = codes "hash";
}

abbrev first : Session
first = new_session (by_code (codes "K7M4Q2")) true false 0

abbrev sample_events : List (Input × Event)
sample_events =
    (at 1, starts)
    ∷ (at 2, pairs 1 (some (paired (codes "room") (codes "ticket"))))
    ∷ (at 3, opens 0 (some (codes "ticket")))
    ∷ (at 4, receives 0 [] (served (ready (codes "g") false)))
    ∷ (at 5, connects 1 (codes "connected") up)
    ∷ (at 6, closes 0 (codes "code 1006"))
    ∷ (at 7, stops)
    ∷ []

abbrev playing : Session
playing = record first {
  peer = some (record { id = 1; connection = up; has_remote = true });
  socket = some (record { id = 0; ready = Ready.ready });
}

on_close-IsKept_example :
    IsKept playing (on_close (at 6) 0 (codes "code 1006") playing).0
    × ((on_close (at 6) 0 (codes "code 1006") playing).1 ≡ [])
    × ((on_close (at 6) 0 (codes "code 1006") playing).0.retry_timer ≡ (
        if not (is_current 0 playing.socket) || playing.stopped
        then playing.retry_timer
        else some (to_start (retry_delay playing.retry))))
    × (on_error playing ≡ (playing, []))
    × IsKept playing (message (at 6) peer_left playing).0.0
    × ((message (at 6) peer_left playing).0.1 ≡ [])
    × IsKept playing (message (at 6) (ready playing.generation true) playing).0.0
    × ((message (at 6) (ready playing.generation true) playing).0.1 ≡ [])
on_close-IsKept_example = on_close-IsKept (at 6) 0 (codes "code 1006") playing refl

abbrev new_peer : Peer
new_peer = record { id = 1; connection = fresh; has_remote = false }

abbrev negotiating : Session
negotiating = record first {
  peer = some new_peer;
  socket = some (record { id = 0; ready = Ready.ready });
}

abbrev early : List Candidate
early =
    record { candidate = codes "candidate:1"; mid = codes "0" }
    ∷ record { candidate = codes "candidate:2"; mid = codes "0" }
    ∷ []

on_ices-on_description_example :
    IsServed 1 offer
      (codes "v=0")
      early
      (transmit 0 (relay (description answer [] (codes "v=0"))) ∷ [])
      (on_ices (at 5) early negotiating >>? on_description (at 5) offer (codes "v=0"))
on_ices-on_description_example =
    on_ices-on_description (at 5) offer early (codes "v=0") (codes "v=0") negotiating new_peer refl
      refl refl (omega arith) refl refl (refl, (refl, tt))

stop-IsResting_example :
    IsResting (stop playing).0 × Rests (run no_json sample_events (stop playing).0)
stop-IsResting_example = stop-IsResting no_json sample_events playing

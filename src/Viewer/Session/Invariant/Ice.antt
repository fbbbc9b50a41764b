-- ===== src/Viewer/Session/Invariant/Ice.antt =====
-- What the peer connection reports of ICE keeps the bounds.
use laptop_as_a_second_monit.Common.{
  ℕ, Bool, false, ◌||◌, Option, none, some, [], ◌++◌, Str, codes, str_eq,
}
use laptop_as_a_second_monit.Protocol.Message.{relay, ice}
use laptop_as_a_second_monit.Viewer.Session.State.{Session, connection_stats, Input, ◌>>>◌, emit}
use laptop_as_a_second_monit.Viewer.Session.State.Methods.{note, mark, send}
use laptop_as_a_second_monit.Viewer.Session.Direct.Handlers.{
  is_peer, ice_done, ice_lost, on_ice_state, on_candidate_error, on_candidate, ice_checking,
  ice_duration, mid_of,
}
use laptop_as_a_second_monit.Viewer.Session.Invariant.{
  At, then-At, if-At, note-At, mark-At, send-At,
}

ice_done-At :
    {b : Bool} (input : Input) (name : Str) (s : Session) → At b s → At b (ice_done input name s).0
unfolding ice_done
ice_done-At input name s h =
    if-At (str_eq name (codes "connected") || str_eq name (codes "completed"))
      (mark input (codes "iceMs") (ice_duration input s)) (s, [])
      (λ _. mark-At input (codes "iceMs") (ice_duration input s) h) (λ _. h)

ice_lost-At :
    {b : Bool} (input : Input) (name : Str) (s : Session) → At b s → At b (ice_lost input name s).0
unfolding ice_lost
ice_lost-At input name s h =
    if-At (str_eq name (codes "disconnected") || str_eq name (codes "failed"))
      (note input (codes "ICE " ++ name) s) (s, []) (λ _. note-At input (codes "ICE " ++ name) s h)
      (λ _. h)

pub on_ice_state-At :
    {b : Bool} (input : Input) (i : ℕ) (name : Str) (s : Session)
    → At b s
    → At b (on_ice_state input i name s).0
unfolding on_ice_state
on_ice_state-At input i name s h =
    let t = ice_checking input name s in
    if-At (is_peer i s.peer) _ _
      (λ _.
        then-At (ice_done input name t >>> ice_lost input name) (emit (connection_stats false))
          (then-At (ice_done input name t) (ice_lost input name) (ice_done-At input name t h)
            (ice_lost-At input name))
          (λ u k. k))
      (λ _. h)

pub on_candidate_error-At :
    {b : Bool} (input : Input) (text : Str) (s : Session)
    → At b s
    → At b (on_candidate_error input text s).0
unfolding on_candidate_error
on_candidate_error-At input text s h =
    if-At (str_eq text s.last_candidate_error) _ _ (λ _. h)
      (λ _. note-At input text (record s { last_candidate_error = text }) h)

pub on_candidate-At :
    {b : Bool} (i : ℕ) (c : Option (Str × Option Str)) (s : Session)
    → At b s
    → At b (on_candidate i c s).0
unfolding on_candidate
on_candidate-At i none s h = h
on_candidate-At i (some (text, mid)) s h =
    if-At (is_peer i s.peer) (send (λ g. relay (ice g text (mid_of mid))) s) (s, [])
      (λ _. send-At (λ g. relay (ice g text (mid_of mid))) s h) (λ _. h)

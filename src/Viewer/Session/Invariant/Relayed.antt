-- ===== src/Viewer/Session/Invariant/Relayed.antt =====
-- The messages of the other peer keep the bounds.
use laptop_as_a_second_monit.Common.{
  ℕ, ◌<◌, ◌≡◌, refl, true, false, ◌&&◌, ◌||◌, not, Option, none, some, [], ◌∷◌, ◌++◌, Str, codes,
  str_eq, ltb, length, length-append, if◌then◌else◌, arith,
}
use laptop_as_a_second_monit.Protocol.Message.{SdpType, Relay, description, ice}
use laptop_as_a_second_monit.Viewer.Session.State.{
  Peer, Candidate, Session, set_remote, add_candidate, Input, ◌>>>◌, emit,
}
use laptop_as_a_second_monit.Viewer.Session.State.Methods.{note, mark}
use laptop_as_a_second_monit.Viewer.Session.Direct.{Attempt, fine, ◌>>?◌, create_peer}
use laptop_as_a_second_monit.Viewer.Session.Messages.{
  add_candidates, flush_pending, answer_offer, describe_peer, describe, renew, on_description,
  on_ice_peer, on_ice, on_relayed, is_offer, has_remote, max_pending, is_none_peer, with_remote,
}
use laptop_as_a_second_monit.Viewer.Session.Invariant.{At, then-At, note-At, mark-At}
use laptop_as_a_second_monit.Viewer.Session.Invariant.Direct.{with_peer}
use laptop_as_a_second_monit.Viewer.Session.Invariant.Attempts.{
  try-At, if_attempt-At, send_description-At, create_peer-At,
}

none_pending : (s : Session) → At false s → At false (record s { pending = [] })
none_pending s (g, e) = (
  record {
    ring = g.ring;
    waiting = omega arith;
    patience = g.patience;
    orphan = λ k. let (_, due, stats) = g.orphan k in (refl, due, stats);
    at_rest = g.at_rest;
  },
  e,
)

flush_pending-At :
    (input : Input) (i : ℕ) (s : Session) → At false s → At false (flush_pending input i s).0.0
unfolding flush_pending
flush_pending-At input i s h =
    if_attempt-At (add_candidates input i s.pending).1 _
      (fine (record s { pending = [] }, (add_candidates input i s.pending).0)) (λ _. h)
      (λ _. none_pending s h)

answer_offer-At :
    (input : Input) (t : SdpType) (s : Session) → At false s → At false (answer_offer input t s).0.0
unfolding answer_offer
answer_offer-At input t s h =
    if_attempt-At (is_offer t) _ (fine (s, [])) (λ _. send_description-At input _ s h) (λ _. h)

describe_peer-At :
    (input : Input) (t : SdpType) (sdp : Str) (o : Option Peer) (s : Session)
    → At false s
    → At false (describe_peer input t sdp o s).0.0
unfolding describe_peer
describe_peer-At input t sdp none s h = h
describe_peer-At input t sdp (some p) s h =
    let u = record s { peer = with_remote p } in
    let set = emit (set_remote p.id t sdp) u >>> mark input (codes "sdpMs") in
    if_attempt-At input.remote_ok _ ((s, set_remote p.id t sdp ∷ []), true)
      (λ _.
        try-At (fine set >>? flush_pending input p.id) (answer_offer input t)
          (try-At (fine set) (flush_pending input p.id)
            (then-At (emit (set_remote p.id t sdp) u) (mark input (codes "sdpMs")) (with_peer _ s h)
              (mark-At input (codes "sdpMs")))
            (flush_pending-At input p.id))
          (answer_offer-At input t))
      (λ _. h)

describe-At :
    (input : Input) (t : SdpType) (sdp : Str) (s : Session)
    → At false s
    → At false (describe input t sdp s).0.0
unfolding describe
describe-At input t sdp s h = describe_peer-At input t sdp s.peer s h

renew-At : (input : Input) (s : Session) → At false s → At false (renew input s).0.0
unfolding renew
renew-At input s h =
    try-At (fine (note input _ s)) (create_peer input) (note-At input _ s h) (create_peer-At input)

on_description-At :
    (input : Input) (t : SdpType) (sdp : Str) (s : Session)
    → At false s
    → At false (on_description input t sdp s).0.0
unfolding on_description
on_description-At input t sdp s h =
    let first : Attempt = if is_offer t && has_remote s.peer then renew input s else fine (s, []) in
    try-At first (describe input t sdp)
      (if_attempt-At (is_offer t && has_remote s.peer) (renew input s) (fine (s, []))
        (λ _. renew-At input s h) (λ _. h))
      (describe-At input t sdp)

-- At most 128 candidates wait, and only for a connection.
one_more :
    (c : Candidate) (p : Peer) (s : Session)
    → s.peer ≡ some p
    → length s.pending < max_pending
    → At false s
    → At false (record s { pending = s.pending ++ c ∷ [] })
one_more c p s q lt (g, e) = (
  record {
    ring = g.ring;
    waiting = omega (arith, length-append s.pending (c ∷ []));
    patience = g.patience;
    orphan = λ k. cc;
    at_rest = g.at_rest;
  },
  e,
)

on_ice_peer-At :
    (input : Input) (c : Candidate) (o : Option Peer) (s : Session)
    → s.peer ≡ o
    → At false s
    → At false (on_ice_peer input c o s).0.0
unfolding on_ice_peer
on_ice_peer-At input c none s q h = h
on_ice_peer-At input c (some p) s q h =
    if_attempt-At p.has_remote ((s, add_candidate p.id c ∷ []), not (input.accepts c)) _ (λ _. h)
      (λ _.
        if_attempt-At (ltb (length s.pending) max_pending)
          (fine (record s { pending = s.pending ++ c ∷ [] }, [])) (fine (s, []))
          (λ lt. one_more c p s q (ground arith) h) (λ _. h))

on_ice-At :
    (input : Input) (c : Candidate) (s : Session) → At false s → At false (on_ice input c s).0.0
unfolding on_ice
on_ice-At input c s h = on_ice_peer-At input c s.peer s refl h

pub on_relayed-At :
    (input : Input) (m : Relay) (s : Session) → At false s → At false (on_relayed input m s).0.0
unfolding on_relayed
on_relayed-At input (description t g sdp) s h =
    if_attempt-At (not (str_eq g s.generation) || is_none_peer s.peer) (fine (s, [])) _ (λ _. h)
      (λ _. on_description-At input t sdp s h)
on_relayed-At input (ice g c mid) s h =
    if_attempt-At (not (str_eq g s.generation) || is_none_peer s.peer) (fine (s, [])) _ (λ _. h)
      (λ _. on_ice-At input _ s h)

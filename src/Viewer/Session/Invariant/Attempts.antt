-- ===== src/Viewer/Session/Invariant/Attempts.antt =====
-- The attempts at a peer connection keep the bounds.
use laptop_as_a_second_monit.Common.{
  ◌≡◌, refl, Bool, true, false, ◌&&◌, Option, none, some, [], Str, codes, if◌then◌else◌,
}
use laptop_as_a_second_monit.Protocol.Message.{SdpType, offer, state}
use laptop_as_a_second_monit.Viewer.Session.State.{Session, Input, ◌>>>◌, emit}
use laptop_as_a_second_monit.Viewer.Session.State.Methods.{
  note, mark, live, reset_peer, send, includes, is_truthy, is_host,
}
use laptop_as_a_second_monit.Viewer.Session.Direct.{
  Attempt, fine, ◌>>?◌, send_state, clear_stages, make_peer, announce_peer, send_local,
  send_description, offer_source, create_peer,
}
use laptop_as_a_second_monit.Viewer.Session.Invariant.{
  At, then-At, if-At, note-At, mark-At, send-At, reset_peer-At,
}

pub try-At :
    {b : Bool} (o : Attempt) (f : Session → Attempt)
    → At b o.0.0
    → ((s : Session) → At b s → At b (f s).0.0)
    → At b (o >>? f).0.0
unfolding ◌>>?◌
try-At ((s, es), true) f h k = h
try-At ((s, es), false) f h k = k s h

pub if_attempt-At :
    {b : Bool} (c : Bool) (o p : Attempt)
    → (c ≡ true → At b o.0.0)
    → (c ≡ false → At b p.0.0)
    → At b (if c then o else p).0.0
if_attempt-At true o p h k = h refl
if_attempt-At false o p h k = k refl

pub send_state-At : {b : Bool} (live : Bool) (s : Session) → At b s → At b (send_state live s).0
unfolding send_state
send_state-At live s h =
    if-At (includes (codes "resume") s.features && is_truthy s.generation)
      (send (λ g. state g live) s) (s, []) (λ _. send-At (λ g. state g live) s h) (λ _. h)

make_peer-At : (s : Session) → At false s → At false (make_peer s).0
unfolding make_peer
make_peer-At s (g, e) = (
  record {
    ring = g.ring;
    waiting = g.waiting;
    patience = g.patience;
    orphan = λ k. cc;
    at_rest = λ k. cc;
  },
  e,
)

announce_peer-At :
    {b : Bool} (input : Input) (s : Session) → At b s → At b (announce_peer input s).0
unfolding announce_peer
announce_peer-At input s h = then-At (note input _ s) (emit _) (note-At input _ s h) (λ t k. k)

send_local-At :
    {b : Bool} (o : Option Str) (t : SdpType) (s : Session) → At b s → At b (send_local o t s).0.0
unfolding send_local
send_local-At none t s h = h
send_local-At (some sdp) t s h = send-At _ s h

pub send_description-At :
    {b : Bool} (input : Input) (t : SdpType) (s : Session)
    → At b s
    → At b (send_description input t s).0.0
unfolding send_description
send_description-At input t s h = send_local-At input.local_sdp t s h

offer_source-At :
    {b : Bool} (input : Input) (s : Session) → At b s → At b (offer_source input s).0.0
unfolding offer_source
offer_source-At input s h =
    if_attempt-At s.stream _ _
      (λ _.
        send_description-At input offer
          (record s { channel = some (record { is_open = false; buffered = 0 }) }) h)
      (λ _. h)

pub create_peer-At : (input : Input) (s : Session) → At false s → At false (create_peer input s).0.0
unfolding create_peer
create_peer-At input s h =
    let first = reset_peer s >>> (λ t. mark input (codes "peerAvailableMs") (clear_stages t)) in
    let first-At =
      then-At (reset_peer s) _ (reset_peer-At s h) (λ t k. mark-At input _ (clear_stages t) k) in
    let made-At = then-At first make_peer first-At make_peer-At in
    let told-At =
      then-At (first >>> make_peer) (announce_peer input) made-At (announce_peer-At input) in
    try-At (fine (first >>> make_peer >>> announce_peer input)) _ told-At (λ t k.
      if_attempt-At (is_host t.credentials) (offer_source input t) (fine (t, []))
        (λ _. offer_source-At input t k) (λ _. k))

-- ===== src/Viewer/Session/Invariant/Direct.antt =====
-- The peer connection's steps keep the bounds.
use laptop_as_a_second_monit.Common.{
  ℕ, ◌≡◌, refl, ◌∙◌, Bool, true, false, ◌&&◌, ◌||◌, not, Option, none, some, [], ◌++◌, Str, codes,
  arith, Bool-cases, Option-cases, inl, inr,
}
use laptop_as_a_second_monit.Viewer.Session.State.{
  Connection, fresh, connecting, up, disconnected, failed, closed, Peer, Deadline, for_peer,
  for_return, to_rejoin, busy, connected, Session, show_error, diagnostics, connection_stats, Input,
  ◌>>>◌, emit,
}
use laptop_as_a_second_monit.Viewer.Session.State.Methods.{
  phase, note, mark, live, reset_peer, send, is_open,
}
use laptop_as_a_second_monit.Viewer.Session.Direct.{
  send_state, reconnect_direct, label_failed, direct_failure,
}
use laptop_as_a_second_monit.Viewer.Session.Direct.Handlers.{
  is_peer, with_connection, show_connection, media_up, media_down, leave_peer, is_disconnected,
  react, on_connection_state, expire, on_deadline, connection_name,
}
use laptop_as_a_second_monit.Viewer.Session.Invariant.{
  Inv, At, then-At, if-At, if-Inv, note-At, phase-At, mark-At, reset_peer-At, with_timer,
  without_deadline,
}
use laptop_as_a_second_monit.Viewer.Session.Invariant.Attempts.{send_state-At}

pub reconnect_direct-At :
    (input : Input) (ice_state : Str) (s : Session)
    → At false s
    → At false (reconnect_direct input ice_state s).0
unfolding reconnect_direct
reconnect_direct-At input ice_state s h =
    let text =
      codes "direct connection failed (ICE "
      ++ (ice_state ++ codes "); rejoining for a new negotiation") in
    let told = note input text s >>> emit (show_error direct_failure) in
    let told-At =
      then-At (note input text s) (emit (show_error direct_failure)) (note-At input text s h)
        (λ t k. k) in
    let labelled = told >>> (λ t. phase busy (label_failed t)) in
    let labelled-At =
      then-At told (λ t. phase busy (label_failed t)) told-At
        (λ t k. phase-At busy (label_failed t) k) in
    then-At (labelled >>> emit diagnostics)
      (λ t. (record t { retry_timer = some (to_rejoin 3000) }, []))
      (then-At labelled (emit diagnostics) labelled-At (λ t k. k))
      (λ t k. with_timer (to_rejoin 3000) t.retry t refl k)

media_up-At : (input : Input) (s : Session) → At false s → At false (media_up input s).0
unfolding media_up
media_up-At input s h =
    let cleared = emit (show_error []) (record s { deadline = none }) in
    let marked = cleared >>> mark input (codes "webrtcMs") in
    let marked-At =
      then-At cleared (mark input (codes "webrtcMs")) (without_deadline s h)
        (mark-At input (codes "webrtcMs")) in
    then-At (marked >>> phase connected) (send_state true)
      (then-At marked (phase connected) marked-At (phase-At connected)) (send_state-At true)

leave_peer-At : {b : Bool} (c : Connection) (s : Session) → At b s → At b (leave_peer c s).0
unfolding leave_peer
leave_peer-At c s h =
    if-At (is_open s.socket || is_disconnected c) (s, []) (reset_peer s) (λ _. h)
      (λ _. reset_peer-At s h)

media_down-At : {b : Bool} (c : Connection) (s : Session) → At b s → At b (media_down c s).0
unfolding media_down
media_down-At c s h =
    then-At (phase busy s >>> send_state false) (leave_peer c)
      (then-At (phase busy s) (send_state false) (phase-At busy s h) (send_state-At false))
      (leave_peer-At c)

-- A connection that is interrupted is not given up yet.
media_down_peer : (s : Session) → (media_down disconnected s).0.peer ≡ s.peer
unfolding media_down ◌>>>◌ phase send_state send leave_peer
media_down_peer s = ground arith

awaiting_return :
    (s : Session) (p : Peer)
    → s.peer ≡ some p
    → At false s
    → At false (record s { deadline = some for_return })
awaiting_return s p q (g, e) = (
  record {
    ring = g.ring;
    waiting = g.waiting;
    patience = g.patience;
    orphan = λ k. cc;
    at_rest = λ k. cc;
  },
  e,
)

interrupted-At :
    (s : Session) (p : Peer)
    → s.peer ≡ some p
    → At false s
    → At false
        (media_down disconnected s >>> (λ t. (record t { deadline = some for_return }, []))).0
unfolding ◌>>>◌
interrupted-At s p q h =
    awaiting_return (media_down disconnected s).0 p (media_down_peer s ∙ q)
      (media_down-At disconnected s h)

react-At :
    (input : Input) (ice_state : Str) (c : Connection) (s : Session) (p : Peer)
    → s.peer ≡ some p
    → At false s
    → At false (react input ice_state c s).0
unfolding react
react-At input ice_state fresh s p q h = h
react-At input ice_state connecting s p q h = h
react-At input ice_state up s p q h = media_up-At input s h
react-At input ice_state disconnected s p q h = interrupted-At s p q h
react-At input ice_state failed s p q h =
    then-At (media_down failed s) (reconnect_direct input ice_state) (media_down-At failed s h)
      (reconnect_direct-At input ice_state)
react-At input ice_state closed s p q h = media_down-At closed s h

pub with_peer : (p : Peer) (s : Session) → At false s → At false (record s { peer = some p })
with_peer p s (g, e) = (
  record {
    ring = g.ring;
    waiting = g.waiting;
    patience = g.patience;
    orphan = λ k. cc;
    at_rest = λ k. cc;
  },
  e,
)

note_peer : (input : Input) (text : Str) (s : Session) → (note input text s).0.peer ≡ s.peer
unfolding note
note_peer input text s = refl

changed-At :
    (input : Input) (i : ℕ) (ice_state : Str) (c : Connection) (s : Session) (p : Peer)
    → At false s
    → s.peer ≡ some p
    → At false
        (show_connection c (record s { peer = with_connection c s.peer })
          >>> emit (connection_stats false)
          >>> note input (codes "WebRTC " ++ connection_name c)
          >>> react input ice_state c).0
unfolding ◌>>>◌ show_connection
changed-At input i ice_state c s p h e =
    let q : Peer = record p { connection = c } in
    let t = record s { peer = some q } in
    let text = codes "WebRTC " ++ connection_name c in
    simp e (
      react-At input ice_state c (note input text t).0 q (note_peer input text t)
        (note-At input text t (with_peer q s h)))

-- A connection that is there belongs to a session that has not stopped.
has_peer :
    (i : ℕ) (s : Session)
    → Inv s
    → is_peer i s.peer ≡ true
    → (p : Peer) × (s.peer ≡ some p) × At false s
has_peer i s g e = elim (Option-cases s.peer) [
  | inl o ↦ absurd (ground arith)
  | inr (p, o) ↦ elim (Bool-cases s.stopped) [
    | inl k ↦ absurd (ground (arith, (g.at_rest k).0))
    | inr k ↦ (p, o, (g, k))
  ]
]

pub on_connection_state-Inv :
    (input : Input) (i : ℕ) (ice_state : Str) (c : Connection) (s : Session)
    → Inv s
    → Inv (on_connection_state input i ice_state c s).0
unfolding on_connection_state
on_connection_state-Inv input i ice_state c s g =
    if-Inv (is_peer i s.peer) _ _
      (λ e. let (p, q, h) = has_peer i s g e in (changed-At input i ice_state c s p h q).0) (λ _. g)

expire-Inv :
    (input : Input) (ice_state : Str) (o : Option Deadline) (s : Session)
    → At false s
    → Inv (expire input ice_state o s).0
unfolding expire
expire-Inv input ice_state none s h = h.0
expire-Inv input ice_state (some for_return) s h =
    (reconnect_direct-At input ice_state (record s { deadline = none }) (without_deadline s h)).0
expire-Inv input ice_state (some (for_peer i)) s h =
    if-Inv (is_peer i s.peer && not (live s)) _ _
      (λ _.
        (reconnect_direct-At input ice_state (record s { deadline = none })
          (without_deadline s h)).0)
      (λ _. (without_deadline s h).0)

pub on_deadline-Inv :
    (input : Input) (ice_state : Str) (s : Session) → Inv s → Inv (on_deadline input ice_state s).0
unfolding on_deadline expire
on_deadline-Inv input ice_state s g = elim (Bool-cases s.stopped) [
  | inr e ↦ expire-Inv input ice_state s.deadline s (g, e)
  | inl e ↦ let idle = (g.orphan (g.at_rest e).0).1 in ground arith
]

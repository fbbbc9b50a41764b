-- ===== src/Viewer/Session/Invariant/Signals.antt =====
-- The signaling side keeps the bounds.
use laptop_as_a_second_monit.Common.{
  ℕ, ◌-◌, ◌≡◌, refl, Bool, false, ◌&&◌, ◌||◌, not, Option, none, some, [], Str, codes, str_eq, ltb,
  ◌==◌, if◌then◌else◌, arith, Bool-cases, inl, inr,
}
use laptop_as_a_second_monit.Protocol.Message.{PairResponse, paired as pair_answer, pair_error}
use laptop_as_a_second_monit.Viewer.Session.State.{
  pairing, busy, Socket, Retry, to_start, to_rejoin, Session, ended, Input, ◌>>>◌, emit,
}
use laptop_as_a_second_monit.Viewer.Session.State.Methods.{
  gone_socket, phase, note, live, reset_peer, schedule_retry, close_socket, stop, is_open, includes,
}
use laptop_as_a_second_monit.Viewer.Session.Signals.{
  open_socket, pair, code_of, pair_or_throw, rejoin, restart, take_answer, open_one, beat,
  close_or_start, retry_with, start, pair_failed, on_pair_response, open_current, is_opening,
  on_open, on_error, signaling_lost, on_close, start_heartbeat, socket_id, on_heartbeat, on_retry,
  is_current,
}
use laptop_as_a_second_monit.Viewer.Session.Invariant.{
  Inv, At, then-At, if-At, then-Inv, if-Inv, without_timer, note-At, phase-At, reset_peer-At,
  schedule_retry-At, close_socket-At, stop-At,
}

open_socket-At :
    (ticket : Option Str) (s : Session) → At false s → At false (open_socket ticket s).0
unfolding open_socket
open_socket-At ticket s (g, e) = (
  record {
    ring = g.ring;
    waiting = g.waiting;
    patience = g.patience;
    orphan = g.orphan;
    at_rest = λ k. cc;
  },
  e,
)

pair-At : (code : Str) (s : Session) → At false s → At false (pair code s).0
unfolding pair
pair-At code s h = h

pair_or_throw-At : (o : Option Str) (s : Session) → At false s → At false (pair_or_throw o s).0
unfolding pair_or_throw
pair_or_throw-At none s h = h
pair_or_throw-At (some code) s h =
    then-At (phase pairing s) (pair code) (phase-At pairing s h) (pair-At code)

rejoin-At : (s : Session) → At false s → At false (rejoin s).0
unfolding rejoin
rejoin-At s h =
    if-At _ _ _
      (λ _.
        then-At (if live s then (s, []) else phase busy s) (open_socket none)
          (if-At _ _ _ (λ _. h) (λ _. phase-At busy s h)) (open_socket-At none))
      (λ _. pair_or_throw-At (code_of s.credentials) s h)

restart-At : {b : Bool} (now : ℕ) (s : Session) → At b s → At b (restart now s).0
restart-At now s h = if-At (live s) _ _ (λ _. h) (λ _. h)

pub start-At : (input : Input) (s : Session) → At false s → At false (start input s).0
unfolding start
start-At input s h =
    if-At s.stopped _ _ (λ _. h)
      (λ _.
        then-At (restart input.now s) _ (restart-At input.now s h)
          (λ t k. if-At t.reachable _ _ (λ _. rejoin-At t k) (λ _. k)))

pair_failed-Inv : (e : Str) (s : Session) → At false s → Inv (pair_failed e s).0
unfolding pair_failed
pair_failed-Inv e s h =
    if-Inv (str_eq e (codes "host-unavailable")) _ _
      (λ _. then-Inv (emit _ s) schedule_retry h (λ t k. (schedule_retry-At t k).0))
      (λ _.
        then-Inv (emit _ s >>> stop) (emit (ended e)) (then-At (emit _ s) stop h stop-At)
          (λ t k. k.0))

take_answer-Inv :
    (answer : Option PairResponse) (s : Session) → At false s → Inv (take_answer answer s).0
unfolding take_answer
take_answer-Inv none s h = then-Inv (emit _ s) schedule_retry h (λ t k. (schedule_retry-At t k).0)
take_answer-Inv (some (pair_error e)) s h = pair_failed-Inv e s h
take_answer-Inv (some (pair_answer room ticket)) s h =
    then-Inv (phase busy (record s { room = some room })) (open_socket (some ticket))
      (phase-At busy (record s { room = some room }) h)
      (λ t k. (open_socket-At (some ticket) t k).0)

pub on_pair_response-Inv :
    (attempt : ℕ) (answer : Option PairResponse) (s : Session)
    → Inv s
    → Inv (on_pair_response attempt answer s).0
unfolding on_pair_response
on_pair_response-Inv attempt answer s g =
    if-Inv (s.stopped || not (attempt == s.started)) _ _ (λ _. g)
      (λ e. take_answer-Inv answer s (g, ground arith))

open_current-At :
    {b : Bool} (w : Socket) (ticket : Option Str) (s : Session)
    → s.socket ≡ some w
    → At b s
    → At b (open_current w ticket s).0
unfolding open_current
open_current-At w ticket s e (g, k) =
    if-At (is_opening w.ready) _ _
      (λ o. (
        record {
          ring = g.ring;
          waiting = g.waiting;
          patience = g.patience;
          orphan = g.orphan;
          at_rest = λ q. absurd (ground (arith, (g.at_rest q).3));
        },
        k,
      ))
      (λ _. (g, k))

open_one-At :
    {b : Bool} (i : ℕ) (ticket : Option Str) (o : Option Socket) (s : Session)
    → s.socket ≡ o
    → At b s
    → At b (open_one i ticket o s).0
unfolding open_one
open_one-At i ticket none s e h = h
open_one-At i ticket (some w) s e h =
    if-At (w.id == i) _ _ (λ _. open_current-At w ticket s e h) (λ _. h)

pub on_open-At :
    {b : Bool} (i : ℕ) (ticket : Option Str) (s : Session) → At b s → At b (on_open i ticket s).0
unfolding on_open
on_open-At i ticket s h = open_one-At i ticket s.socket s refl h

pub on_error-At : {b : Bool} (s : Session) → At b s → At b (on_error s).0
unfolding on_error
on_error-At s h = if-At (live s) _ _ (λ _. h) (λ _. h)

signaling_lost-At : {b : Bool} (s : Session) → At b s → At b (signaling_lost s).0
unfolding signaling_lost
signaling_lost-At s h =
    then-At (reset_peer s >>> phase busy) (emit _)
      (then-At (reset_peer s) (phase busy) (reset_peer-At s h) (phase-At busy)) (λ t k. k)

with_heartbeat :
    (timer : Option ℕ) (s : Session) → At false s → At false (record s { heartbeat_timer = timer })
with_heartbeat timer s (g, e) = (
  record {
    ring = g.ring;
    waiting = g.waiting;
    patience = g.patience;
    orphan = g.orphan;
    at_rest = λ k. cc;
  },
  e,
)

socket_gone :
    (s : Session)
    → At false s
    → At false (record s { socket = gone_socket s.socket; heartbeat_timer = none })
socket_gone s (g, e) = (
  record {
    ring = g.ring;
    waiting = g.waiting;
    patience = g.patience;
    orphan = g.orphan;
    at_rest = λ k. cc;
  },
  e,
)

pub on_close-Inv :
    (input : Input) (i : ℕ) (details : Str) (s : Session)
    → Inv s
    → Inv (on_close input i details s).0
unfolding on_close
on_close-Inv input i details s g =
    let t = record s { socket = gone_socket s.socket; heartbeat_timer = none } in
    if-Inv (not (is_current i s.socket) || s.stopped) _ _ (λ _. g)
      (λ e.
        let h = socket_gone s (g, ground arith) in
        if-Inv (live s) _ _
          (λ _.
            then-Inv (note input _ t) schedule_retry (note-At input _ t h)
              (λ u k. (schedule_retry-At u k).0))
          (λ _.
            then-Inv (note input _ t >>> signaling_lost) schedule_retry
              (then-At (note input _ t) signaling_lost (note-At input _ t h) signaling_lost-At)
              (λ u k. (schedule_retry-At u k).0)))

pub start_heartbeat-At :
    (input : Input) (s : Session) → At false s → At false (start_heartbeat input s).0
unfolding start_heartbeat
start_heartbeat-At input s (g, e) =
    if-At (includes (codes "heartbeat") s.features) _ _
      (λ _. (with_heartbeat (socket_id s.socket) s (g, e))) (λ _. (with_heartbeat none s (g, e)))

beat-Inv : (input : Input) (o : Option ℕ) (s : Session) → Inv s → Inv (beat input o s).0
unfolding beat
beat-Inv input none s g = g
beat-Inv input (some i) s g =
    if-Inv (not (is_current i s.socket && is_open s.socket)) _ _ (λ _. g)
      (λ _.
        if-Inv (ltb 50000 (input.now - s.last_heard)) _ _
          (λ _.
            then-Inv (note input _ s) close_socket (note-At input _ s (g, refl))
              (λ t k. (close_socket-At t k).0))
          (λ _. g))

pub on_heartbeat-Inv : (input : Input) (s : Session) → Inv s → Inv (on_heartbeat input s).0
unfolding on_heartbeat
on_heartbeat-Inv input s g = beat-Inv input s.heartbeat_timer s g

close_or_start-At : (input : Input) (s : Session) → At false s → At false (close_or_start input s).0
unfolding close_or_start
close_or_start-At input s h =
    if-At (is_open s.socket) _ _ (λ _. close_socket-At s h) (λ _. start-At input s h)

retry_with-At :
    (input : Input) (o : Option Retry) (s : Session)
    → At false s
    → At false (retry_with input o s).0
unfolding retry_with
retry_with-At input none s h = h
retry_with-At input (some (to_start delay)) s h =
    start-At input (record s { retry_timer = none }) (without_timer s h)
retry_with-At input (some (to_rejoin delay)) s h =
    then-At (reset_peer (record s { retry_timer = none })) (close_or_start input)
      (reset_peer-At (record s { retry_timer = none }) (without_timer s h))
      (close_or_start-At input)

-- A timer that is due belongs to a session that has not stopped.
pub on_retry-Inv : (input : Input) (s : Session) → Inv s → Inv (on_retry input s).0
unfolding on_retry retry_with
on_retry-Inv input s g = elim (Bool-cases s.stopped) [
  | inr e ↦ (retry_with-At input s.retry_timer s (g, e)).0
  | inl e ↦ let idle = (g.at_rest e).1 in ground arith
]

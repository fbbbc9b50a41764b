-- ===== src/Signaling/Room/Lifecycle/Throttle.antt =====
-- How many wrong codes may be tried, whatever happens to the room meanwhile.
use laptop_as_a_second_monit.Common.{
  ℕ, ◌+◌, ◌*◌, ◌≤◌, ◌≡◌, refl, Option, none, some, List, [], ◌∷◌, Str, if◌then◌else◌, arith, All,
  is_none, Option-cases, inl, inr, Bool-cases,
}
use laptop_as_a_second_monit.Protocol.Json.{Json}
use laptop_as_a_second_monit.Protocol.Message.{
  host, viewer, ClientMessage, auth_host, auth_viewer, register_codes, kick, state, relay,
}
use laptop_as_a_second_monit.Protocol.Hex.{Digest, room_for_secret}
use laptop_as_a_second_monit.Signaling.Hash.{timing_safe_equal_hex}
use laptop_as_a_second_monit.Protocol.Parse.{parse_client, Result-cases}
use laptop_as_a_second_monit.Signaling.Room.State.{
  Attachment, Socket, Room, Input, peers, is_empty, attachment_of,
}
use laptop_as_a_second_monit.Signaling.Room.Pairing.{claim, consume_ticket}
use laptop_as_a_second_monit.Signaling.Room.Pairing.Throttle.{
  budget, IsWithin, is_invalid_code, claim-budget, pairing_failure-budget,
}
use laptop_as_a_second_monit.Signaling.Room.Message.{
  begin_generation, start_generation, pair_up, auth_as_host, present, admit_viewer, auth_as_viewer,
  authenticate,
}
use laptop_as_a_second_monit.Signaling.Room.Message.Dispatch.{
  set_codes, set_live, kick_viewers, relay_message, peer_message, admit_message, dispatch,
  parse_message, read_message, read_payload, Payload, text, binary, web_socket_message,
}
use laptop_as_a_second_monit.Signaling.Room.Lifecycle.{
  accept, depart, web_socket_close, web_socket_error, Event, on_fetch, on_claim, on_message,
  on_close, on_error, on_disconnect, on_alarm, deadlines, purge, set_alarm, ring, step,
}

begin_generation_failures :
    (input : Input) (r : Room) (h v : Socket)
    → (begin_generation input r h v).0.failures ≡ r.failures
unfolding begin_generation
begin_generation_failures input r h v = ground arith

start_generation_failures :
    (input : Input) (r : Room) → (start_generation input r).0.failures ≡ r.failures
unfolding start_generation
start_generation_failures input r =
    elim (Option-cases (pair_up (peers host r.sockets) (peers viewer r.sockets))) [
      | inl e ↦ rw (e, start_generation) refl
      | inr ((h, v), e) ↦ rw (e, start_generation) (begin_generation_failures input r h v)
    ]

host_failures :
    (digest : Digest) (input : Input) (i : ℕ) (a : Attachment) (secret : Str) (live : Option Str)
    (r : Room)
    → (auth_as_host digest input i a secret live r).0.failures ≡ r.failures
unfolding auth_as_host
host_failures digest input i a secret live r =
    elim (Bool-cases (timing_safe_equal_hex (room_for_secret digest secret) r.name)) [
      | inl e ↦ rw e (start_generation_failures input _)
      | inr e ↦ rw e refl
    ]

admit_failures :
    (digest : Digest) (input : Input) (i : ℕ) (a : Attachment) (live : Option Str) (r : Room)
    → (admit_viewer digest input i a live r).0.failures ≡ r.failures
unfolding admit_viewer
admit_failures digest input i a live r = start_generation_failures input _

present_failures :
    (digest : Digest) (now : ℕ) (ticket token : Option Str) (r : Room)
    → (present digest now ticket token r).0.failures ≡ r.failures
unfolding present consume_ticket
present_failures digest now none token r = refl
present_failures digest now (some t) token r = ground arith

peer_failures :
    (now i : ℕ) (a : Attachment) (m : ClientMessage) (r : Room)
    → (peer_message now i a m r).0.failures ≡ r.failures
unfolding peer_message set_codes set_live kick_viewers relay_message
peer_failures now i a (auth_host secret live) r = refl
peer_failures now i a (auth_viewer ticket token live) r = refl
peer_failures now i a (register_codes cs) r = ground arith
peer_failures now i a (state g live) r = ground arith
peer_failures now i a kick r = ground arith
peer_failures now i a (relay m) r = ground arith

module _ (digest : Digest) (start : ℕ) (input : Input) (within : IsWithin start input.now) where
  -- An operation does not make room for more wrong codes.
  abbrev Spares : Room → Room → Type 0
  Spares r q = budget start q.failures ≤ budget start r.failures

  viewer-Spares :
      (i : ℕ) (a : Attachment) (ticket token live : Option Str) (r : Room)
      → Spares r (auth_as_viewer digest input i a ticket token live r).0
  unfolding auth_as_viewer
  viewer-Spares i a ticket token live r =
      let r' = (present digest input.now ticket token r).0 in
      ground (
        arith,
        present_failures digest input.now ticket token r,
        pairing_failure-budget input.now r' start within,
        admit_failures digest input i a live r',
      )

  authenticate-Spares :
      (i : ℕ) (a : Attachment) (m : ClientMessage) (r : Room)
      → Spares r (authenticate digest input i a m r).0
  unfolding authenticate
  authenticate-Spares i a (auth_host secret live) r =
      ground (arith, host_failures digest input i a secret live r)
  authenticate-Spares i a (auth_viewer ticket token live) r =
      ground (arith, viewer-Spares i a ticket token live r)
  authenticate-Spares i a _ r = omega arith

  dispatch-Spares :
      (i : ℕ) (a : Attachment) (m : ClientMessage) (r : Room)
      → Spares r (dispatch digest input i a m r).0
  unfolding dispatch
  dispatch-Spares i a m r =
      ground (arith, peer_failures input.now i a m r, authenticate-Spares i a m r)

  module _ (json_parse : Str → Option Json) where
    parse-Spares :
        (i : ℕ) (b : Attachment) (raw : Str) (r : Room)
        → Spares r (parse_message json_parse digest input i b raw r).0
    unfolding parse_message
    parse-Spares i b raw r = elim (Result-cases (parse_client json_parse raw)) [
      | inl (m, e) ↦ rw (e, parse_message) (dispatch-Spares i b m _)
      | inr (x, e) ↦ rw (e, parse_message) (omega arith)
    ]

    read-Spares :
        (i : ℕ) (a : Attachment) (raw : Str) (r : Room)
        → Spares r (read_message json_parse digest input i a raw r).0
    unfolding read_message
    read-Spares i a raw r = elim (Option-cases (admit_message input.now a)) [
      | inl e ↦ rw (e, read_message) (ground arith)
      | inr (b, e) ↦ rw (e, read_message) (ground (arith, parse-Spares i b raw r))
    ]

    payload-Spares :
        (i : ℕ) (a : Attachment) (payload : Payload) (r : Room)
        → Spares r (read_payload json_parse digest input i a payload r).0
    unfolding read_payload
    payload-Spares i a binary r = omega arith
    payload-Spares i a (text raw) r = read-Spares i a raw r

    message-Spares :
        (i : ℕ) (payload : Payload) (r : Room)
        → Spares r (web_socket_message json_parse digest input i payload r).0
    unfolding web_socket_message
    message-Spares i payload r = elim (Option-cases (attachment_of i r.sockets)) [
      | inl e ↦ rw (e, web_socket_message) (omega arith)
      | inr (a, e) ↦ rw (e, web_socket_message) (payload-Spares i a payload r)
    ]

depart_failures : (i : ℕ) (r : Room) → (depart i r).0.failures ≡ r.failures
unfolding depart
depart_failures i r = ground arith

accept_failures : (now : ℕ) (r : Room) → (accept now r).0.failures ≡ r.failures
unfolding accept
accept_failures now r = ground arith

-- The alarm of a room without sockets, which may clear the failures.
abbrev pub idle_alarm : Event → Room → ℕ
idle_alarm on_alarm r = if is_empty r.sockets then 1 else 0
idle_alarm _ r = 0

-- An answer that a code is wrong.
abbrev pub invalid_answer : Digest → Input → Event → Room → ℕ
invalid_answer digest input (on_claim code_hash) r =
    if is_invalid_code (claim digest input code_hash r).1 then 1 else 0
invalid_answer digest input _ r = 0

set_alarm-budget :
    (start : ℕ) (ds : List ℕ) (r : Room)
    → budget start (set_alarm ds r).failures
      ≤ budget start r.failures + 10 * (if is_empty r.sockets then 1 else 0)
set_alarm-budget start [] r = ground arith
set_alarm-budget start (d ∷ ds) r = omega arith

ring-budget :
    (start now : ℕ) (r : Room)
    → budget start (ring now r).0.failures
      ≤ budget start r.failures + 10 * (if is_empty r.sockets then 1 else 0)
unfolding ring purge
ring-budget start now r = set_alarm-budget start (deadlines now (purge now r)) (purge now r)

module _ (json_parse : Str → Option Json) (digest : Digest) where
  step-budget :
      (start : ℕ) (input : Input) (e : Event) (r : Room)
      → IsWithin start input.now
      → invalid_answer digest input e r + budget start (step json_parse digest input e r).failures
        ≤ budget start r.failures + 10 * idle_alarm e r
  unfolding step web_socket_close web_socket_error
  step-budget start input on_fetch r h = ground (arith, accept_failures input.now r)
  step-budget start input (on_claim code_hash) r h =
      omega (arith, claim-budget digest input code_hash r start h)
  step-budget start input (on_message i payload) r h =
      omega (arith, message-Spares digest start input h json_parse i payload r)
  step-budget start input (on_close i) r h = ground (arith, depart_failures i r)
  step-budget start input (on_error i) r h = ground (arith, depart_failures i r)
  step-budget start input (on_disconnect i) r h = omega arith
  step-budget start input on_alarm r h = omega (arith, ring-budget start input.now r)

  -- How many answers of a run say that a code is wrong.
  pub invalid_answers : List (Input × Event) → Room → ℕ
  invalid_answers [] r = 0
  invalid_answers ((input, e) ∷ es) r =
      invalid_answer digest input e r + invalid_answers es (step json_parse digest input e r)

  -- How often its alarm comes without a socket.
  pub idle_alarms : List (Input × Event) → Room → ℕ
  idle_alarms [] r = 0
  idle_alarms ((input, e) ∷ es) r =
      idle_alarm e r + idle_alarms es (step json_parse digest input e r)

  invalid_answers-budget :
      (start : ℕ) (es : List (Input × Event)) (r : Room)
      → All (λ c. IsWithin start c.0.now) es
      → invalid_answers es r ≤ budget start r.failures + 10 * idle_alarms es r
  unfolding invalid_answers idle_alarms
  invalid_answers-budget start [] r h = omega arith
  invalid_answers-budget start ((input, e) ∷ es) r (h, hs) = omega (
    arith,
    step-budget start input e r h,
    invalid_answers-budget start es (step json_parse digest input e r) hs,
  )

  -- In any minute, whatever happens to the room, it tells at most twenty times that a code is wrong, and at
  -- most ten times where it has no failure on record when the minute begins; and ten times more for each
  -- alarm that comes while no socket is there, since that may clear the record.
  pub invalid_answers_bound :
      (start : ℕ) (es : List (Input × Event)) (r : Room)
      → All (λ c. IsWithin start c.0.now) es
      → invalid_answers es r ≤ (if is_none r.failures then 10 else 20) + 10 * idle_alarms es r
  invalid_answers_bound start es r h =
      let b = invalid_answers-budget start es r h in
      elim (Option-cases r.failures) [ inl e ↦ ground arith | inr (f, e) ↦ ground arith ]

-- ===== src/Signaling/Room/Lifecycle/Invariant.antt =====
-- Every event keeps the bounds of a room.
use laptop_as_a_second_monit.Common.{
  ℕ, ◌≤◌, ◌≡◌, refl, Bool, false, Option, none, List, [], ◌∷◌, Str, ltb, arith, Bool-cases,
  Option-cases, inl, inr, length, filter, ◌==◌, length-append, length-filter-le, length-filter_last,
}
use laptop_as_a_second_monit.Protocol.Json.{Json}
use laptop_as_a_second_monit.Protocol.Message.{host, viewer}
use laptop_as_a_second_monit.Protocol.Hex.{Digest}
use laptop_as_a_second_monit.Signaling.Room.State.{
  Attachment, Stored, Socket, Room, Input, is_peer, is_empty, attachment_of, unexpired, or_empty,
}
use laptop_as_a_second_monit.Signaling.Room.State.Peers.{lacks_role}
use laptop_as_a_second_monit.Signaling.Room.Lifecycle.{
  accept, new_attachment, depart, drop_socket, keep_list, purge, ring, Event, on_fetch, on_claim,
  on_message, on_close, on_error, on_disconnect, on_alarm, web_socket_close, web_socket_error, step,
  run, new_room, set_alarm, deadlines,
}
use laptop_as_a_second_monit.Signaling.Room.Lifecycle.Bounds.{
  Bounds, Inv, new_room-Inv, fewer_tickets, claim-Inv, attach_gone,
}
use laptop_as_a_second_monit.Signaling.Room.Lifecycle.Messages.{web_socket_message-Inv}

accept-Inv : (now : ℕ) (r : Room) → Inv r → Inv (accept now r).0
unfolding accept
accept-Inv now r b =
    let s : Socket = record { id = r.next_id; attachment = new_attachment now } in
    ground (
      arith,
      length-append r.sockets (s ∷ []),
      length-filter_last (λ (t : Socket). is_peer host t.attachment) r.sockets s,
      length-filter_last (λ (t : Socket). is_peer viewer t.attachment) r.sockets s,
      length-filter_last (λ (t : Socket). lacks_role t.attachment) r.sockets s,
    )

depart-Inv : (i : ℕ) (r : Room) → Inv r → Inv (depart i r).0
unfolding depart
depart-Inv i r b = elim (Option-cases (attachment_of i r.sockets)) [
  | inl e ↦ rw (e, depart) b
  | inr (a, e) ↦
      rw (e, depart)
        (ground (
          arith,
          attach_gone i (record a { is_authenticated = false }) a r.sockets e r.tickets refl b,
        ))
]

length-filter_drop :
    (q : Attachment → Bool) (i : ℕ) (ss : List Socket)
    → length (filter (λ s. q s.attachment) (drop_socket i ss))
      ≤ length (filter (λ s. q s.attachment) ss)
unfolding drop_socket
length-filter_drop q i [] = omega arith
length-filter_drop q i (s ∷ ss) = elim (Bool-cases (s.id == i)) [
  | inl e ↦ rw e (ground arith)
  | inr e ↦ rw e (ground (arith, length-filter_drop q i ss))
]

length-drop_socket : (i : ℕ) (ss : List Socket) → length (drop_socket i ss) ≤ length ss
unfolding drop_socket
length-drop_socket i [] = omega arith
length-drop_socket i (s ∷ ss) = ground (arith, length-drop_socket i ss)

disconnect-Bounds :
    (i : ℕ) (ss : List Socket) (tickets : Option (List Stored))
    → Bounds ss tickets
    → Bounds (drop_socket i ss) tickets
disconnect-Bounds i ss tickets b = ground (
  arith,
  length-filter_drop (is_peer host) i ss,
  length-filter_drop (is_peer viewer) i ss,
  length-filter_drop lacks_role i ss,
  length-drop_socket i ss,
)

length-keep_list : (xs : List Stored) → length (or_empty (keep_list xs)) ≡ length xs
length-keep_list [] = refl
length-keep_list (x ∷ xs) = refl

set_alarm-Inv : (ts : List ℕ) (r : Room) → Inv r → Inv (set_alarm ts r)
set_alarm-Inv [] r b = elim (Bool-cases (is_empty r.sockets)) [
  | inl e ↦ rw e (fewer_tickets none (omega arith) b)
  | inr e ↦ rw e b
]
set_alarm-Inv (t ∷ ts) r b = b

ring-Inv : (now : ℕ) (r : Room) → Inv r → Inv (ring now r).0
unfolding ring purge
ring-Inv now r b = set_alarm-Inv (deadlines now (purge now r)) (purge now r) (
    fewer_tickets _
      (omega (
        arith,
        length-keep_list (unexpired now (or_empty r.tickets)),
        length-filter-le (λ (c : Stored). ltb now c.expires) (or_empty r.tickets),
      ))
      b)

step-Inv :
    (json_parse : Str → Option Json) (digest : Digest) (input : Input) (e : Event) (r : Room)
    → Inv r
    → Inv (step json_parse digest input e r)
unfolding step web_socket_close web_socket_error
step-Inv json_parse digest input on_fetch r b = accept-Inv input.now r b
step-Inv json_parse digest input (on_claim code_hash) r b = claim-Inv digest input code_hash r b
step-Inv json_parse digest input (on_message i payload) r b =
    web_socket_message-Inv json_parse digest input i payload r b
step-Inv json_parse digest input (on_close i) r b = depart-Inv i r b
step-Inv json_parse digest input (on_error i) r b = depart-Inv i r b
step-Inv json_parse digest input (on_disconnect i) r b = disconnect-Bounds i r.sockets r.tickets b
step-Inv json_parse digest input on_alarm r b = ring-Inv input.now r b

run_from-Inv :
    (json_parse : Str → Option Json) (digest : Digest) (es : List (Input × Event)) (r : Room)
    → Inv r
    → Inv (run json_parse digest es r)
unfolding run
run_from-Inv json_parse digest [] r b = b
run_from-Inv json_parse digest ((input, e) ∷ es) r b =
    run_from-Inv json_parse digest es (step json_parse digest input e r)
      (step-Inv json_parse digest input e r b)

-- After any sequence of events, a room has at most six sockets, at most one authenticated host and
-- one authenticated viewer, no peer without a role, and at most four tickets.
pub run-Inv :
    (json_parse : Str → Option Json) (digest : Digest) (name : Str) (es : List (Input × Event))
    → Inv (run json_parse digest es (new_room name))
run-Inv json_parse digest name es =
    run_from-Inv json_parse digest es (new_room name) (new_room-Inv name)

-- ===== src/Signaling/Room/Lifecycle/Messages.antt =====
-- Every message that a room reads keeps its invariant.
use laptop_as_a_second_monit.Common.{
  ℕ, ◌≡◌, refl, ap, Bool, false, Option, none, some, List, Str, ltb, arith, Bool-cases,
  Option-cases, inl, inr, length,
}
use laptop_as_a_second_monit.Protocol.Json.{Json}
use laptop_as_a_second_monit.Protocol.Message.{
  max_message, host, viewer, Relay, CodeRegistration, ClientMessage, auth_host, auth_viewer,
  register_codes, kick, state, relay,
}
use laptop_as_a_second_monit.Protocol.Parse.{parse_client, Result-cases}
use laptop_as_a_second_monit.Protocol.Hex.{Digest, room_for_secret}
use laptop_as_a_second_monit.Signaling.Hash.{timing_safe_equal_hex}
use laptop_as_a_second_monit.Signaling.Room.State.{
  Attachment, Room, Input, peers, attachment_of, attach, revoke,
}
use laptop_as_a_second_monit.Signaling.Room.State.Peers.{
  peers-revoke, attachment_of-attach, attachment_of-revoke,
}
use laptop_as_a_second_monit.Signaling.Room.Message.{
  auth_as_host, auth_as_viewer, admit_viewer, present, authenticate,
}
use laptop_as_a_second_monit.Signaling.Room.Message.Dispatch.{
  peer_message, set_codes, set_live, is_current, kick_viewers, relay_message, admit_message,
  parse_message, dispatch, read_message, read_payload, Payload, text, binary, web_socket_message,
}
use laptop_as_a_second_monit.Signaling.Room.Lifecycle.Bounds.{
  Inv, revoke-Bounds, fewer_tickets, present_keeps, present-Inv, pairing_failure-Inv,
  start_generation-Inv, attach_same, attach_host, attach_viewer,
}

auth_as_host-Inv :
    (digest : Digest) (input : Input) (i : ℕ) (a : Attachment) (secret : Str) (live : Option Str)
    (r : Room)
    → attachment_of i r.sockets ≡ some a
    → a.is_authenticated ≡ false
    → Inv r
    → Inv (auth_as_host digest input i a secret live r).0
unfolding auth_as_host
auth_as_host-Inv digest input i a secret live r h k b =
    elim (Bool-cases (timing_safe_equal_hex (room_for_secret digest secret) r.name)) [
      | inl e ↦ rw e (
          start_generation-Inv input _ (
            attach_host i _ a (revoke host r.sockets) (attachment_of-revoke host i r.sockets a h k)
              r.tickets k refl refl (ap length (peers-revoke host r.sockets))
              (revoke-Bounds host r.sockets r.tickets b)))
      | inr e ↦ rw e b
    ]

admit_viewer-Inv :
    (digest : Digest) (input : Input) (i : ℕ) (a : Attachment) (live : Option Str) (r : Room)
    → attachment_of i r.sockets ≡ some a
    → a.is_authenticated ≡ false
    → length (peers viewer r.sockets) ≡ 0
    → Inv r
    → Inv (admit_viewer digest input i a live r).0
unfolding admit_viewer
admit_viewer-Inv digest input i a live r h k n b =
    start_generation-Inv input _ (attach_viewer i _ a r.sockets h r.tickets k refl refl n b)

auth_as_viewer-Inv :
    (digest : Digest) (input : Input) (i : ℕ) (a : Attachment) (ticket token live : Option Str)
    (r : Room)
    → attachment_of i r.sockets ≡ some a
    → a.is_authenticated ≡ false
    → Inv r
    → Inv (auth_as_viewer digest input i a ticket token live r).0
unfolding auth_as_viewer
auth_as_viewer-Inv digest input i a ticket token live r h k b =
    let r' = (present digest input.now ticket token r).0 in
    let b' = present-Inv digest input.now ticket token r b in
    let same = present_keeps digest input.now ticket token r in
    let h' : attachment_of i r'.sockets ≡ some a = rw same h in
    ground (
      arith,
      b',
      pairing_failure-Inv input.now r' b',
      admit_viewer-Inv digest input i a live r' h' k,
    )

authenticate-Inv :
    (digest : Digest) (input : Input) (i : ℕ) (a : Attachment) (m : ClientMessage) (r : Room)
    → attachment_of i r.sockets ≡ some a
    → a.is_authenticated ≡ false
    → Inv r
    → Inv (authenticate digest input i a m r).0
unfolding authenticate
authenticate-Inv digest input i a (auth_host secret live) r h k b =
    ground (arith, auth_as_host-Inv digest input i a secret live r h k b)
authenticate-Inv digest input i a (auth_viewer ticket token live) r h k b =
    ground (arith, auth_as_viewer-Inv digest input i a ticket token live r h k b)
authenticate-Inv digest input i a _ r h k b = b

set_live-Inv :
    (i : ℕ) (a : Attachment) (g : Str) (live : Bool) (r : Room)
    → attachment_of i r.sockets ≡ some a
    → Inv r
    → Inv (set_live i a g live r)
unfolding set_live
set_live-Inv i a g live r h b = elim (Bool-cases (is_current g r)) [
  | inl e ↦ rw e (attach_same i _ a r.sockets h r.tickets refl refl b)
  | inr e ↦ rw e b
]

kick_viewers-Inv : (r : Room) → Inv r → Inv (kick_viewers r).0
unfolding kick_viewers
kick_viewers-Inv r b = fewer_tickets none (omega arith) (revoke-Bounds viewer r.sockets r.tickets b)

set_codes-Inv :
    (now : ℕ) (cs : List CodeRegistration) (r : Room) → Inv r → Inv (set_codes now cs r).0
unfolding set_codes
set_codes-Inv now cs r b = b

relay_message-Inv :
    (i : ℕ) (a : Attachment) (m : Relay) (r : Room) → Inv r → Inv (relay_message i a m r).0
unfolding relay_message
relay_message-Inv i a m r b = ground arith

peer_message-Inv :
    (now i : ℕ) (a : Attachment) (m : ClientMessage) (r : Room)
    → attachment_of i r.sockets ≡ some a
    → Inv r
    → Inv (peer_message now i a m r).0
unfolding peer_message
peer_message-Inv now i a (auth_host secret live) r h b = b
peer_message-Inv now i a (auth_viewer ticket token live) r h b = b
peer_message-Inv now i a (register_codes cs) r h b = ground (arith, set_codes-Inv now cs r b)
peer_message-Inv now i a (state g live) r h b = set_live-Inv i a g live r h b
peer_message-Inv now i a kick r h b = ground (arith, kick_viewers-Inv r b)
peer_message-Inv now i a (relay m) r h b = relay_message-Inv i a m r b

dispatch-Inv :
    (digest : Digest) (input : Input) (i : ℕ) (a : Attachment) (m : ClientMessage) (r : Room)
    → attachment_of i r.sockets ≡ some a
    → Inv r
    → Inv (dispatch digest input i a m r).0
unfolding dispatch
dispatch-Inv digest input i a m r h b =
    ground (arith, peer_message-Inv input.now i a m r h b, authenticate-Inv digest input i a m r h)

-- Counting a message does not change who a socket is.
admit_message_same :
    (now : ℕ) (a b : Attachment)
    → admit_message now a ≡ some b
    → (b.is_authenticated ≡ a.is_authenticated) × (b.role ≡ a.role)
unfolding admit_message
admit_message_same now a b h = ground arith

parse_message-Inv :
    (json_parse : Str → Option Json) (digest : Digest) (input : Input) (i : ℕ) (a b : Attachment)
    (raw : Str) (r : Room)
    → attachment_of i r.sockets ≡ some a
    → b.is_authenticated ≡ a.is_authenticated
    → b.role ≡ a.role
    → Inv r
    → Inv (parse_message json_parse digest input i b raw r).0
unfolding parse_message
parse_message-Inv json_parse digest input i a b raw r h same role k =
    let counted = attach_same i b a r.sockets h r.tickets same role k in
    let listed = attachment_of-attach i b r.sockets a h in
    elim (Result-cases (parse_client json_parse raw)) [
      | inl (m, e) ↦
          rw (e, parse_message)
            (dispatch-Inv digest input i b m (record r { sockets = attach i b r.sockets }) listed
              counted)
      | inr (x, e) ↦ rw (e, parse_message) counted
    ]

read_message-Inv :
    (json_parse : Str → Option Json) (digest : Digest) (input : Input) (i : ℕ) (a : Attachment)
    (raw : Str) (r : Room)
    → attachment_of i r.sockets ≡ some a
    → Inv r
    → Inv (read_message json_parse digest input i a raw r).0
unfolding read_message
read_message-Inv json_parse digest input i a raw r h k =
    elim (Bool-cases (ltb max_message (length raw))) [
      | inl long ↦ rw long k
      | inr short ↦ rw short (elim (Option-cases (admit_message input.now a)) [
        | inl e ↦ rw e k
        | inr (b, e) ↦
            let (same, role) = admit_message_same input.now a b e in
            rw e (parse_message-Inv json_parse digest input i a b raw r h same role k)
      ])
    ]

read_payload-Inv :
    (json_parse : Str → Option Json) (digest : Digest) (input : Input) (i : ℕ) (a : Attachment)
    (payload : Payload) (r : Room)
    → attachment_of i r.sockets ≡ some a
    → Inv r
    → Inv (read_payload json_parse digest input i a payload r).0
unfolding read_payload
read_payload-Inv json_parse digest input i a binary r h b = b
read_payload-Inv json_parse digest input i a (text raw) r h b =
    read_message-Inv json_parse digest input i a raw r h b

pub web_socket_message-Inv :
    (json_parse : Str → Option Json) (digest : Digest) (input : Input) (i : ℕ) (payload : Payload)
    (r : Room)
    → Inv r
    → Inv (web_socket_message json_parse digest input i payload r).0
unfolding web_socket_message
web_socket_message-Inv json_parse digest input i payload r b =
    elim (Option-cases (attachment_of i r.sockets)) [
      | inl e ↦ rw (e, web_socket_message) b
      | inr (a, e) ↦
          rw (e, web_socket_message) (read_payload-Inv json_parse digest input i a payload r e b)
    ]

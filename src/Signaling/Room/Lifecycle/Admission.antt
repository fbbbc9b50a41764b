-- ===== src/Signaling/Room/Lifecycle/Admission.antt =====
-- From a room that is open for a ticket to the viewer in it: the socket is accepted by `fetch`, and its
-- first message is read by `webSocketMessage`.
use laptop_as_a_second_monit.Common.{
  ℕ, ◌+◌, ◌≤◌, ◌<◌, ◌≡◌, refl, ◌≢◌, false, Option, none, some, List, [], ◌∷◌, ◌++◌, Str, arith, ◌∙◌,
  ltb, length,
}
use laptop_as_a_second_monit.Protocol.Json.{Json}
use laptop_as_a_second_monit.Protocol.Message.{
  Role, host, viewer, ClientMessage, auth_viewer, max_message,
}
use laptop_as_a_second_monit.Protocol.Parse.{parse_client, ok, utf8_length}
use laptop_as_a_second_monit.Protocol.Hex.{Digest}
use laptop_as_a_second_monit.Signaling.Room.State.{
  Attachment, Socket, Room, Input, peers, is_empty, attachment_of, attach,
}
use laptop_as_a_second_monit.Signaling.Room.Pairing.{
  throttled, claim, pairing_failure, issue_ticket,
}
use laptop_as_a_second_monit.Signaling.Room.State.Peers.{attachment_of-attach}
use laptop_as_a_second_monit.Signaling.Room.Message.{authenticate}
use laptop_as_a_second_monit.Signaling.Room.Message.Dispatch.{
  text, count_message, admit_message, parse_message, read_message, read_payload, dispatch,
  web_socket_message,
}
use laptop_as_a_second_monit.Signaling.Room.Message.Journey.{Offers, Offers-authenticate}
use laptop_as_a_second_monit.Signaling.Room.Lifecycle.{accept, new_attachment, auth_deadline}

-- A new socket is no peer.
peers-snoc :
    (role : Role) (ss : List Socket) (s : Socket)
    → s.attachment.is_authenticated ≡ false
    → peers role (ss ++ s ∷ []) ≡ peers role ss
peers-snoc role [] s h = ground arith
peers-snoc role (t ∷ ss) s h = ground (arith, peers-snoc role ss s h)

-- Writing the attachment of a socket that is no peer makes none.
peers-attach :
    (role : Role) (i : ℕ) (b : Attachment) (ss : List Socket) (a : Attachment)
    → attachment_of i ss ≡ some a
    → a.is_authenticated ≡ false
    → b.is_authenticated ≡ false
    → is_empty (peers role (attach i b ss)) ≡ is_empty (peers role ss)
unfolding attachment_of attach
peers-attach role i b [] a h k l = refl
peers-attach role i b (s ∷ ss) a h k l = ground (arith, peers-attach role i b ss a)

attachment_of-snoc :
    (i : ℕ) (ss : List Socket) (s : Socket)
    → attachment_of i ss ≡ none
    → s.id ≡ i
    → attachment_of i (ss ++ s ∷ []) ≡ some s.attachment
unfolding attachment_of
attachment_of-snoc i [] s h e = ground arith
attachment_of-snoc i (t ∷ ss) s h e = ground (arith, attachment_of-snoc i ss s)

-- A new socket has a name that no other has, and six are too many.
pub record HasPlace (r : Room) : Type 0 where
  pub few : length r.sockets < 6
  pub unnamed : attachment_of r.next_id r.sockets ≡ none

-- The room after a socket was accepted, and what is attached to that.
accept_sockets :
    (now : ℕ) (r : Room)
    → HasPlace r
    → (accept now r).0.sockets
      ≡ r.sockets ++ record { id = r.next_id; attachment = new_attachment now } ∷ []
unfolding accept
accept_sockets now r p = ground (arith, p.few)

accept_rest :
    (now : ℕ) (r : Room)
    → let s = (accept now r).0 in (s.failures ≡ r.failures) × (s.tickets ≡ r.tickets)
unfolding accept
accept_rest now r = ground arith

pub accept-Offers :
    (digest : Digest) (now later : ℕ) (ticket : Str) (r : Room)
    → HasPlace r
    → Offers digest later ticket r
    → Offers digest later ticket (accept now r).0
      × (attachment_of r.next_id (accept now r).0.sockets ≡ some (new_attachment now))
unfolding throttled
accept-Offers digest now later ticket r p offers =
    let s : Socket = record { id = r.next_id; attachment = new_attachment now } in
    let sockets = accept_sockets now r p in
    let (failures, tickets) = accept_rest now r in
    (
      record {
        calm = rw (failures, throttled) offers.calm;
        hosts = rw (sockets, peers-snoc host r.sockets s refl) offers.hosts;
        viewers = rw (sockets, peers-snoc viewer r.sockets s refl) offers.viewers;
        fits = rw tickets offers.fits;
      },
      rw sockets (attachment_of-snoc r.next_id r.sockets s p.unnamed refl),
    )

length-utf8_length : (s : Str) → length s ≤ utf8_length s
unfolding utf8_length
length-utf8_length [] = omega arith
length-utf8_length (c ∷ []) = ground arith
length-utf8_length (c ∷ d ∷ s) = ground (arith, length-utf8_length s, length-utf8_length (d ∷ s))

admit_first :
    (now : ℕ) (a : Attachment)
    → a.count ≡ 0
    → a.is_authenticated ≡ false
    → let b = count_message now a in
      (admit_message now a ≡ some b) × (b.is_authenticated ≡ false) × (b.deadline ≡ a.deadline)
unfolding count_message admit_message
admit_first now a fresh guest = ground arith

-- The first message of a socket is read, and authenticates it.
read_first :
    (json_parse : Str → Option Json) (digest : Digest) (input : Input) (i : ℕ) (a : Attachment)
    (raw : Str) (m : ClientMessage) (r : Room)
    → utf8_length raw ≤ max_message
    → parse_client json_parse raw ≡ ok m
    → a.count ≡ 0
    → a.is_authenticated ≡ false
    → read_message json_parse digest input i a raw r
      ≡ authenticate digest input i
          (count_message input.now a)
          m
          (record r { sockets = attach i (count_message input.now a) r.sockets })
unfolding read_message parse_message dispatch
read_first json_parse digest input i a raw m r short parsed fresh guest =
    let (admitted, still, deadline) = admit_first input.now a fresh guest in
    let fits : ltb max_message (length raw) ≡ false = ground (arith, length-utf8_length raw) in
    rw (fits, admitted, parse_message, parsed, dispatch, still) refl

first_message :
    (json_parse : Str → Option Json) (digest : Digest) (input : Input) (i : ℕ) (a : Attachment)
    (raw : Str) (m : ClientMessage) (r : Room)
    → utf8_length raw ≤ max_message
    → parse_client json_parse raw ≡ ok m
    → a.count ≡ 0
    → a.is_authenticated ≡ false
    → attachment_of i r.sockets ≡ some a
    → web_socket_message json_parse digest input i (text raw) r
      ≡ authenticate digest input i
          (count_message input.now a)
          m
          (record r { sockets = attach i (count_message input.now a) r.sockets })
unfolding web_socket_message read_payload
first_message json_parse digest input i a raw m r short parsed fresh guest listed =
    rw (listed, web_socket_message)
      (read_first json_parse digest input i a raw m r short parsed fresh guest)

attach-Offers :
    (digest : Digest) (later i : ℕ) (a b : Attachment) (ticket : Str) (r : Room)
    → attachment_of i r.sockets ≡ some a
    → a.is_authenticated ≡ false
    → b.is_authenticated ≡ false
    → Offers digest later ticket r
    → Offers digest later ticket (record r { sockets = attach i b r.sockets })
unfolding throttled
attach-Offers digest later i a b ticket r h k l offers = record {
  calm = offers.calm;
  hosts = peers-attach host i b r.sockets a h k l ∙ offers.hosts;
  viewers = peers-attach viewer i b r.sockets a h k l ∙ offers.viewers;
  fits = offers.fits;
}

-- Where a room is open for a ticket, a socket that is accepted and whose first message presents it in
-- time is the one viewer.
pub accept-IsViewer :
    (json_parse : Str → Option Json) (digest : Digest) (now : ℕ) (input : Input) (raw ticket : Str)
    (live : Option Str) (r : Room)
    → HasPlace r
    → Offers digest input.now ticket r
    → ticket ≢ []
    → utf8_length raw ≤ max_message
    → parse_client json_parse raw ≡ ok (auth_viewer (some ticket) none live)
    → input.now ≤ now + auth_deadline
    → length (
        peers viewer
          (web_socket_message json_parse digest input r.next_id
            (text raw)
            (accept now r).0).0.sockets)
      ≡ 1
accept-IsViewer json_parse digest now input raw ticket live r p offers given short parsed early =
    let (open_room, listed) = accept-Offers digest now input.now ticket r p offers in
    let a = new_attachment now in
    let b = count_message input.now a in
    let (admitted, still, deadline) = admit_first input.now a refl refl in
    let s = (accept now r).0 in
    let t : Room = record s { sockets = attach r.next_id b s.sockets } in
    let kept = attach-Offers digest input.now r.next_id a b ticket s listed refl still open_room in
    rw
      (first_message json_parse digest input r.next_id a raw (auth_viewer (some ticket) none live) s
        short parsed refl refl listed)
      (Offers-authenticate digest input r.next_id b ticket live t kept given
        (attachment_of-attach r.next_id b s.sockets a listed) still (rw deadline early))

claim_place :
    (digest : Digest) (input : Input) (code_hash : Str) (r : Room)
    → let s = (claim digest input code_hash r).0 in
      (s.sockets ≡ r.sockets) × (s.next_id ≡ r.next_id)
unfolding claim pairing_failure issue_ticket
claim_place digest input code_hash r = ground arith

-- A claim neither brings a socket nor takes one.
pub claim-HasPlace :
    (digest : Digest) (input : Input) (code_hash : Str) (r : Room)
    → HasPlace r
    → HasPlace (claim digest input code_hash r).0
claim-HasPlace digest input code_hash r p =
    let (sockets, next) = claim_place digest input code_hash r in
    record { few = rw sockets p.few; unnamed = rw (sockets, next) p.unnamed }

-- ===== src/Signaling/Room/Lifecycle/Bounds.antt =====
-- The bounds that a room keeps, and the operations on pairing that keep them.
use laptop_as_a_second_monit.Common.{
  ℕ, suc, ◌+◌, ◌≤◌, ◌≡◌, refl, Bool, true, false, Option, none, some, List, [], ◌∷◌, ◌++◌, Str, ltb,
  arith, Bool-cases, Option-cases, inl, inr, length, filter, length-filter-le,
}
use laptop_as_a_second_monit.Protocol.Message.{Role, host, viewer}
use laptop_as_a_second_monit.Protocol.Hex.{Digest, sha256_hex}
use laptop_as_a_second_monit.Signaling.Room.State.{
  Attachment, Stored, Socket, Room, Input, is_peer, peers, attachment_of, attach, revoke, unexpired,
  or_empty, max_tickets, ticket_ttl,
}
use laptop_as_a_second_monit.Signaling.Room.State.Peers.{
  share, length-filter-attach, length-attach, length-revoke, peers-revoke, peers_viewer-revoke_host,
  peers_host-revoke_viewer, length-lacks_role-revoke, lacks_role,
}
use laptop_as_a_second_monit.Signaling.Room.Pairing.{
  pairing_failure, consume_ticket, remove_first, issue_ticket, claim,
}
use laptop_as_a_second_monit.Signaling.Room.Pairing.Tickets.{
  fits, consume_ticket_unused, consume_ticket_used, length-shift_to,
}
use laptop_as_a_second_monit.Signaling.Room.Message.Generation.{start_generation_keeps}
use laptop_as_a_second_monit.Signaling.Room.Message.{start_generation, present}
use laptop_as_a_second_monit.Signaling.Room.Lifecycle.{new_room}

-- What is bounded: peers of a role, sockets and stored tickets; and each peer has a role.
pub record Bounds (ss : List Socket) (tickets : Option (List Stored)) : Type 0 where
  pub one_host : length (peers host ss) ≤ 1
  pub one_viewer : length (peers viewer ss) ≤ 1
  pub have_roles : length (filter (λ s. lacks_role s.attachment) ss) ≡ 0
  pub few_sockets : length ss ≤ 6
  pub few_tickets : length (or_empty tickets) ≤ max_tickets

abbrev pub Inv : Room → Type 0
Inv r = Bounds r.sockets r.tickets

pub new_room-Inv : (name : Str) → Inv (new_room name)
new_room-Inv name = omega arith

-- The counts after an attachment is written.
module _ (i : ℕ) (a old : Attachment) (ss : List Socket) (h : attachment_of i ss ≡ some old) where
  hosts_attach :
      length (peers host (attach i a ss)) + share (is_peer host) old
      ≡ length (peers host ss) + share (is_peer host) a
  hosts_attach = length-filter-attach (is_peer host) i a ss old h

  viewers_attach :
      length (peers viewer (attach i a ss)) + share (is_peer viewer) old
      ≡ length (peers viewer ss) + share (is_peer viewer) a
  viewers_attach = length-filter-attach (is_peer viewer) i a ss old h

  lacks_attach :
      length (filter (λ s. lacks_role s.attachment) (attach i a ss)) + share lacks_role old
      ≡ length (filter (λ s. lacks_role s.attachment) ss) + share lacks_role a
  lacks_attach = length-filter-attach lacks_role i a ss old h

  -- Writing an attachment of the same standing.
  pub attach_same :
      (tickets : Option (List Stored))
      → a.is_authenticated ≡ old.is_authenticated
      → a.role ≡ old.role
      → Bounds ss tickets
      → Bounds (attach i a ss) tickets
  attach_same tickets k l b =
      ground (arith, hosts_attach, viewers_attach, lacks_attach, length-attach i a ss)

  -- A socket that was not authenticated becomes the only peer of its role.
  pub attach_host :
      (tickets : Option (List Stored))
      → old.is_authenticated ≡ false
      → a.is_authenticated ≡ true
      → a.role ≡ some host
      → length (peers host ss) ≡ 0
      → Bounds ss tickets
      → Bounds (attach i a ss) tickets
  attach_host tickets k l m n b =
      ground (arith, hosts_attach, viewers_attach, lacks_attach, length-attach i a ss)

  pub attach_viewer :
      (tickets : Option (List Stored))
      → old.is_authenticated ≡ false
      → a.is_authenticated ≡ true
      → a.role ≡ some viewer
      → length (peers viewer ss) ≡ 0
      → Bounds ss tickets
      → Bounds (attach i a ss) tickets
  attach_viewer tickets k l m n b =
      ground (arith, hosts_attach, viewers_attach, lacks_attach, length-attach i a ss)

  -- A peer that departs.
  pub attach_gone :
      (tickets : Option (List Stored))
      → a.is_authenticated ≡ false
      → Bounds ss tickets
      → Bounds (attach i a ss) tickets
  attach_gone tickets k b =
      ground (arith, hosts_attach, viewers_attach, lacks_attach, length-attach i a ss)

pub revoke-Bounds :
    (r : Role) (ss : List Socket) (tickets : Option (List Stored))
    → Bounds ss tickets
    → Bounds (revoke r ss) tickets
revoke-Bounds host ss tickets b = ground (
  arith,
  peers-revoke host ss,
  peers_viewer-revoke_host ss,
  length-lacks_role-revoke host ss,
  length-revoke host ss,
)
revoke-Bounds viewer ss tickets b = ground (
  arith,
  peers-revoke viewer ss,
  peers_host-revoke_viewer ss,
  length-lacks_role-revoke viewer ss,
  length-revoke viewer ss,
)

-- Fewer tickets.
pub fewer_tickets :
    {ss : List Socket} {old : Option (List Stored)} (new : Option (List Stored))
    → length (or_empty new) ≤ length (or_empty old)
    → Bounds ss old
    → Bounds ss new
fewer_tickets new h b = ground arith

length-remove_first :
    (p : Stored → Bool) (xs ys : List Stored)
    → remove_first p xs ≡ some ys
    → suc (length ys) ≡ length xs
unfolding remove_first
length-remove_first p [] ys h = cc
length-remove_first p (x ∷ xs) ys h = elim (Bool-cases (p x)) [
  | inl e ↦ ground arith
  | inr e ↦ elim (Option-cases (remove_first p xs)) [
    | inl o ↦ absurd (ground arith)
    | inr (zs, o) ↦ ground (arith, length-remove_first p xs zs o)
  ]
]

pub consume_ticket_sockets :
    (digest : Digest) (now : ℕ) (ticket : Str) (r : Room)
    → (consume_ticket digest now ticket r).0.sockets ≡ r.sockets
unfolding consume_ticket
consume_ticket_sockets digest now ticket r = ground arith

pub consume_ticket-Inv :
    (digest : Digest) (now : ℕ) (ticket : Str) (r : Room)
    → Inv r
    → Inv (consume_ticket digest now ticket r).0
consume_ticket-Inv digest now ticket r b =
    let held = unexpired now (or_empty r.tickets) in
    let few = length-filter-le (λ (c : Stored). ltb now c.expires) (or_empty r.tickets) in
    rw (consume_ticket_sockets digest now ticket r)
      (elim (Option-cases (remove_first (fits digest ticket) held)) [
        | inl o ↦
            fewer_tickets _ (ground (arith, consume_ticket_unused digest ticket now r o, few)) b
        | inr (rest, o) ↦
            fewer_tickets _
              (ground (
                arith,
                consume_ticket_used digest ticket now r rest o,
                length-remove_first (fits digest ticket) held rest o,
                few,
              ))
              b
      ])

pub present_keeps :
    (digest : Digest) (now : ℕ) (ticket token : Option Str) (r : Room)
    → (present digest now ticket token r).0.sockets ≡ r.sockets
unfolding present consume_ticket
present_keeps digest now none token r = refl
present_keeps digest now (some t) token r = ground arith

pub present-Inv :
    (digest : Digest) (now : ℕ) (ticket token : Option Str) (r : Room)
    → Inv r
    → Inv (present digest now ticket token r).0
unfolding present
present-Inv digest now none token r b = b
present-Inv digest now (some t) token r b = ground (arith, consume_ticket-Inv digest now t r b)

pub pairing_failure-Inv : (now : ℕ) (r : Room) → Inv r → Inv (pairing_failure now r).0
unfolding pairing_failure
pairing_failure-Inv now r b = b

pub start_generation-Inv : (input : Input) (r : Room) → Inv r → Inv (start_generation input r).0
start_generation-Inv input r b = let (s, t) = start_generation_keeps input r in rw (s, t) b

issue_ticket-Inv :
    (digest : Digest) (input : Input) (r : Room) → Inv r → Inv (issue_ticket digest input r).0
unfolding issue_ticket
issue_ticket-Inv digest input r b = ground (
  arith,
  length-shift_to max_tickets (
      unexpired input.now (or_empty r.tickets)
      ++ record { hash = sha256_hex digest input.random_hex; expires = input.now + ticket_ttl }
        ∷ []),
)

pub claim-Inv :
    (digest : Digest) (input : Input) (code_hash : Str) (r : Room)
    → Inv r
    → Inv (claim digest input code_hash r).0
unfolding claim
claim-Inv digest input code_hash r b =
    ground (arith, issue_ticket-Inv digest input r b, pairing_failure-Inv input.now r b)

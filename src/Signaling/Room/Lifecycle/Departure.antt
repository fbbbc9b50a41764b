-- ===== src/Signaling/Room/Lifecycle/Departure.antt =====
-- `depart` of signaling/src/index.ts on each kind of socket, and a second time.
use laptop_as_a_second_monit.Common.{
  ℕ, ◌≡◌, refl, true, false, none, some, [], arith, Bool-cases, Option-cases, inl, inr,
}
use laptop_as_a_second_monit.Signaling.Room.State.{Attachment, Room, attachment_of, attach}
use laptop_as_a_second_monit.Signaling.Room.State.Peers.{attachment_of-attach}
use laptop_as_a_second_monit.Signaling.Room.Lifecycle.{depart}

depart_unknown : (i : ℕ) (r : Room) → attachment_of i r.sockets ≡ none → depart i r ≡ (r, [])
unfolding depart
depart_unknown i r h = rw (h, depart)

depart_stranger :
    (i : ℕ) (r : Room) (a : Attachment)
    → attachment_of i r.sockets ≡ some a
    → a.is_authenticated ≡ false
    → depart i r ≡ (r, [])
unfolding depart
depart_stranger i r a h k = ground arith

depart_peer :
    (i : ℕ) (r : Room) (a : Attachment)
    → attachment_of i r.sockets ≡ some a
    → a.is_authenticated ≡ true
    → (depart i r).0.sockets ≡ attach i (record a { is_authenticated = false }) r.sockets
unfolding depart
depart_peer i r a h k = ground arith

-- A socket that goes is reported to the other peers once: to depart a second time changes nothing and
-- sends nothing.
depart_idempotent : (i : ℕ) (r : Room) → depart i (depart i r).0 ≡ ((depart i r).0, [])
depart_idempotent i r = elim (Option-cases (attachment_of i r.sockets)) [
  | inl e ↦ rw (depart_unknown i r e) (depart_unknown i r e)
  | inr (a, e) ↦ elim (Bool-cases a.is_authenticated) [
    | inr k ↦ rw (depart_stranger i r a e k) (depart_stranger i r a e k)
    | inl k ↦
        let b : Attachment = record a { is_authenticated = false } in
        depart_stranger i (depart i r).0 b
          (rw (depart_peer i r a e k) (attachment_of-attach i b r.sockets a e)) refl
  ]
]

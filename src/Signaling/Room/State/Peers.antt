-- ===== src/Signaling/Room/State/Peers.antt =====
-- How many peers of a role there are after an attachment is written or a role is revoked.
use laptop_as_a_second_monit.Common.{
  ℕ, ◌+◌, ◌≡◌, refl, Bool, false, ◌&&◌, some, List, [], ◌∷◌, filter, length, ◌==◌, if◌then◌else◌,
  arith, is_none, Bool-cases, inl, inr,
}
use laptop_as_a_second_monit.Protocol.Message.{Role, host, viewer}
use laptop_as_a_second_monit.Signaling.Room.State.{
  Attachment, Socket, peers, all_peers, attachment_of, attach, revoke,
}

-- The share of one attachment in a count.
abbrev pub share : (Attachment → Bool) → Attachment → ℕ
share q a = if q a then 1 else 0

-- Writing an attachment exchanges the socket's own share of a count.
pub length-filter-attach :
    (q : Attachment → Bool) (i : ℕ) (a : Attachment) (ss : List Socket) (old : Attachment)
    → attachment_of i ss ≡ some old
    → length (filter (λ s. q s.attachment) (attach i a ss)) + share q old
      ≡ length (filter (λ s. q s.attachment) ss) + share q a
unfolding attachment_of attach
length-filter-attach q i a [] old h = cc
length-filter-attach q i a (s ∷ ss) old h = elim (Bool-cases (s.id == i)) [
  | inl e ↦ let this : s.attachment ≡ old = ground arith in rw e (rw (← this) (ground arith))
  | inr e ↦
      let later : attachment_of i ss ≡ some old = ground arith in
      rw e (ground (arith, length-filter-attach q i a ss old later))
]

pub attachment_of-attach :
    (i : ℕ) (a : Attachment) (ss : List Socket) (old : Attachment)
    → attachment_of i ss ≡ some old
    → attachment_of i (attach i a ss) ≡ some a
unfolding attachment_of attach
attachment_of-attach i a [] old h = cc
attachment_of-attach i a (s ∷ ss) old h = elim (Bool-cases (s.id == i)) [
  | inl e ↦ rw e (rw e)
  | inr e ↦
      let later : attachment_of i ss ≡ some old = ground arith in
      rw e (rw e (attachment_of-attach i a ss old later))
]

-- An attachment that is not authenticated is not touched by a revocation.
pub attachment_of-revoke :
    (r : Role) (i : ℕ) (ss : List Socket) (a : Attachment)
    → attachment_of i ss ≡ some a
    → a.is_authenticated ≡ false
    → attachment_of i (revoke r ss) ≡ some a
unfolding attachment_of revoke
attachment_of-revoke r i [] a h k = cc
attachment_of-revoke r i (s ∷ ss) a h k = ground (arith, attachment_of-revoke r i ss a)

pub length-attach : (i : ℕ) (a : Attachment) (ss : List Socket) → length (attach i a ss) ≡ length ss
unfolding attach
length-attach i a [] = refl
length-attach i a (s ∷ ss) = ground (arith, length-attach i a ss)

pub length-revoke : (r : Role) (ss : List Socket) → length (revoke r ss) ≡ length ss
unfolding revoke
length-revoke r [] = refl
length-revoke r (s ∷ ss) = ground (arith, length-revoke r ss)

-- No peer of a revoked role is left.
pub peers-revoke : (r : Role) (ss : List Socket) → peers r (revoke r ss) ≡ []
unfolding revoke
peers-revoke r [] = refl
peers-revoke r (s ∷ ss) = ground (arith, peers-revoke r ss)

-- Those of the other role stay.
pub peers_viewer-revoke_host : (ss : List Socket) → peers viewer (revoke host ss) ≡ peers viewer ss
unfolding revoke
peers_viewer-revoke_host [] = refl
peers_viewer-revoke_host (s ∷ ss) = ground (arith, peers_viewer-revoke_host ss)

pub peers_host-revoke_viewer : (ss : List Socket) → peers host (revoke viewer ss) ≡ peers host ss
unfolding revoke
peers_host-revoke_viewer [] = refl
peers_host-revoke_viewer (s ∷ ss) = ground (arith, peers_host-revoke_viewer ss)

-- A peer without a role; there is none.
abbrev pub lacks_role : Attachment → Bool
lacks_role a = a.is_authenticated && is_none a.role

pub length-lacks_role-revoke :
    (r : Role) (ss : List Socket)
    → length (filter (λ s. lacks_role s.attachment) (revoke r ss))
      ≡ length (filter (λ s. lacks_role s.attachment) ss)
unfolding revoke
length-lacks_role-revoke r [] = refl
length-lacks_role-revoke r (s ∷ ss) = ground (arith, length-lacks_role-revoke r ss)

-- Every peer has a role or lacks one.
pub length-all_peers :
    (ss : List Socket)
    → length (all_peers ss)
      ≡ length (peers host ss)
        + length (peers viewer ss)
        + length (filter (λ s. lacks_role s.attachment) ss)
length-all_peers [] = refl
length-all_peers (s ∷ ss) = ground (arith, length-all_peers ss)

-- ===== src/Signaling/Room/Message/Rate.antt =====
-- How many messages of a socket are read.
use laptop_as_a_second_monit.Common.{
  ℕ, ◌+◌, ◌-◌, ◌≤◌, ◌≡◌, none, some, List, [], ◌∷◌, leb, if◌then◌else◌, arith, All, Option-cases,
  inl, inr,
}
use laptop_as_a_second_monit.Signaling.Room.State.{Attachment}
use laptop_as_a_second_monit.Signaling.Room.Message.Dispatch.{admit_message}

-- How many of the messages that come at a list of times are read. One that is too many leaves the
-- attachment as it was.
pub messages_read : List ℕ → Attachment → ℕ
messages_read [] a = 0
messages_read (t ∷ ts) a = elim (admit_message t a) [
  | none ↦ messages_read ts a
  | some b ↦ 1 + messages_read ts b
]

-- How many may still be read in the ten seconds that begin at `start`.
abbrev allowance : ℕ → Attachment → ℕ
allowance start a = if leb start a.window then 120 - a.count else (120 - a.count) + 120

abbrev pub IsInSpan : ℕ → ℕ → Type 0
IsInSpan start t = (start ≤ t) × (t ≤ start + 10000)

admit_message-allowance :
    (start t : ℕ) (a b : Attachment)
    → IsInSpan start t
    → admit_message t a ≡ some b
    → 1 + allowance start b ≤ allowance start a
unfolding admit_message
admit_message-allowance start t a b h e = ground arith

messages_read-allowance :
    (ts : List ℕ) (start : ℕ) (a : Attachment)
    → All (IsInSpan start) ts
    → messages_read ts a ≤ allowance start a
unfolding messages_read
messages_read-allowance [] start a h = omega arith
messages_read-allowance (t ∷ ts) start a (h, hs) = elim (Option-cases (admit_message t a)) [
  | inl e ↦ rw (e, messages_read) (messages_read-allowance ts start a hs)
  | inr (b, e) ↦
      rw (e, messages_read)
        (omega
          (arith, admit_message-allowance start t a b h e, messages_read-allowance ts start b hs))
]

-- In any ten seconds at most 240 messages of a socket are read, and at most 120 where its window began
-- no earlier.
pub messages_read_bound :
    (ts : List ℕ) (start : ℕ) (a : Attachment)
    → All (IsInSpan start) ts
    → messages_read ts a ≤ (if leb start a.window then 120 else 240)
messages_read_bound ts start a h = let b = messages_read-allowance ts start a h in ground arith

-- ===== src/Signaling/Directory.antt =====
-- The `Code` object of signaling/src/index.ts: which room a pairing code opens, and until when.
pub mod Laws
pub mod Refinement
use laptop_as_a_second_monit.Common.{
  ℕ, ◌+◌, Option, none, some, List, [], ◌∷◌, Str, leb, if◌then◌else◌,
}

pub record Entry : Type 0 where
  pub room : Str
  pub expires : ℕ

-- `none` is no stored entry, and no alarm that is set.
pub record Directory : Type 0 where
  pub entry : Option Entry
  pub alarm : Option ℕ

abbrev pub empty : Directory
empty = record { entry = none; alarm = none }

unfoldable pub register : ℕ → Str → ℕ → Directory → Directory
register now room ttl_ms d = record {
  entry = some (record { room = room; expires = now + ttl_ms });
  alarm = some (now + ttl_ms);
}

unfoldable pub lookup : ℕ → Directory → Option Str
lookup now d = elim d.entry [
  | none ↦ none
  | some e ↦ if leb e.expires now then none else some e.room
]

-- The alarm handler; the alarm that rings is no longer set.
unfoldable pub ring : ℕ → Directory → Directory
ring now d = elim d.entry [
  | none ↦ empty
  | some e ↦ if leb e.expires now then empty else record d { alarm = some e.expires }
]

-- The alarm rings at each of a list of times.
unfoldable pub ring_all : List ℕ → Directory → Directory
ring_all [] d = d
ring_all (t ∷ ts) d = ring_all ts (ring t d)

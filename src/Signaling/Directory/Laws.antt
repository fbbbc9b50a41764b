-- ===== src/Signaling/Directory/Laws.antt =====
-- A registered code opens its room until it expires, whenever the alarm rings.
use laptop_as_a_second_monit.Common.{
  ℕ, ◌+◌, ◌≤◌, ◌≡◌, refl, none, some, List, [], ◌∷◌, Str, ltb, if◌then◌else◌, arith, All,
}
use laptop_as_a_second_monit.Signaling.Directory.{
  Entry, Directory, empty, register, lookup, ring, ring_all,
}

ring-lookup : (t later : ℕ) (d : Directory) → t ≤ later → lookup later (ring t d) ≡ lookup later d
unfolding ring lookup
ring-lookup t later d h = ground arith

ring_all-lookup :
    (ts : List ℕ) (later : ℕ) (d : Directory)
    → All (λ t. t ≤ later) ts
    → lookup later (ring_all ts d) ≡ lookup later d
unfolding ring_all
ring_all-lookup [] later d h = refl
ring_all-lookup (t ∷ ts) later d (h, hs) =
    rw (ring_all-lookup ts later (ring t d) hs) (ring-lookup t later d h)

pub lookup_registered :
    (d : Directory) (room : Str) (ttl_ms now later : ℕ)
    → lookup later (register now room ttl_ms d)
      ≡ (if ltb later (now + ttl_ms) then some room else none)
unfolding register lookup
lookup_registered d room ttl_ms now later = ground arith

-- Whatever was stored before and however often the alarm has rung since, a code that was registered
-- opens the room it was registered for until its time has passed, and no room from then on.
lookup-register :
    (d : Directory) (room : Str) (ttl_ms now later : ℕ) (ts : List ℕ)
    → All (λ t. t ≤ later) ts
    → lookup later (ring_all ts (register now room ttl_ms d))
      ≡ (if ltb later (now + ttl_ms) then some room else none)
lookup-register d room ttl_ms now later ts h =
    rw (ring_all-lookup ts later (register now room ttl_ms d) h)
      (lookup_registered d room ttl_ms now later)

-- An entry has its alarm set, so that it is deleted after it has expired.
abbrev pub HasAlarm : Directory → Type 0
HasAlarm d = (e : Entry) → d.entry ≡ some e → d.alarm ≡ some e.expires

-- Registering an entry and the alarm keep that, and an alarm that rings after the time deletes it.
pub ring-HasAlarm :
    (t : ℕ) (d : Directory)
    → HasAlarm (ring t d) × ((e : Entry) → d.entry ≡ some e → e.expires ≤ t → ring t d ≡ empty)
unfolding ring
ring-HasAlarm t d = (λ e h. ground arith, λ e h k. ground arith)

-- ===== src/Protocol/Code.antt =====
-- Pairing codes: `normalizeCode` of shared/protocol.ts, and `randomCode` of viewer/src/main.ts. The
-- Unicode table behind `toUpperCase` is an argument: what a code unit outside ASCII becomes (a
-- surrogate pair becomes text outside ASCII, all of which is dropped, as are the two halves here).
pub mod Laws
use laptop_as_a_second_monit.Common.{
  ℕ, ◌-◌, ◌%◌, ◌≡◌, Bool, true, false, Option, none, some, List, [], ◌∷◌, ◌++◌, Str, codes,
  in_range, if◌then◌else◌, ◌||◌, ltb, filter, get_elem?,
}

abbrev pub code_alphabet : Str
code_alphabet = codes "ABCDEFGHJKLMNPQRSTUVWXYZ23456789"

-- What one code unit becomes in upper case.
unfoldable pub upper : (ℕ → Str) → ℕ → Str
upper other c = if ltb c 128 then (if in_range b'a' b'z' c then c - 32 else c) ∷ [] else other c

unfoldable pub to_upper_case : (ℕ → Str) → Str → Str
to_upper_case other [] = []
to_upper_case other (c ∷ s) = upper other c ++ to_upper_case other s

-- The class that `/[^A-Z2-9]/g` leaves.
abbrev pub is_kept : ℕ → Bool
is_kept c = in_range b'A' b'Z' c || in_range b'2' b'9' c

unfoldable pub normalize_code : (ℕ → Str) → Str → Str
unfolding to_upper_case upper
normalize_code other input = filter is_kept (to_upper_case other input)

-- An element, as `join` prints it: nothing for `undefined`.
abbrev pub printed : Option ℕ → Str
printed none = []
printed (some c) = c ∷ []

-- `CODE_ALPHABET[v % 32]`, printed.
unfoldable pub code_char : ℕ → Str
code_char v = printed (get_elem? code_alphabet (v % 32))

-- The code for the random bytes.
unfoldable pub random_code : List ℕ → Str
unfolding code_char
random_code [] = []
random_code (v ∷ vs) = code_char v ++ random_code vs

-- ===== src/Protocol/Pattern.antt =====
-- The regular expressions of shared/protocol.ts: a character class, repeated a number of times.
use laptop_as_a_second_monit.Common.{
  ℕ, ◌≡◌, true, arith, Bool, ◌&&◌, ◌||◌, Str, codes, in_range, ◌==◌, length, all, starts_with, [],
  ◌∷◌,
}

abbrev pub is_hex_digit : ℕ → Bool
is_hex_digit c = in_range b'a' b'f' c || in_range b'0' b'9' c

abbrev pub is_code_char : ℕ → Bool
is_code_char c =
    in_range b'A' b'H' c || in_range b'J' b'N' c || in_range b'P' b'Z' c || in_range b'2' b'9' c

-- `/^[class]{n}$/`
unfoldable pub repeats : (ℕ → Bool) → ℕ → Str → Bool
repeats class n s = length s == n && all class s

abbrev pub is_code : Str → Bool
is_code = repeats is_code_char 6

abbrev pub is_room : Str → Bool
is_room = repeats is_hex_digit 32

abbrev pub is_secret : Str → Bool
is_secret = repeats is_hex_digit 64

abbrev pub is_hash : Str → Bool
is_hash = repeats is_hex_digit 64

abbrev pub is_token : Str → Bool
is_token = repeats is_hex_digit 64

abbrev pub is_generation : Str → Bool
is_generation = repeats (λ c. is_hex_digit c || c == b'-') 36

pub repeats_parts :
    (class : ℕ → Bool) (n : ℕ) (s : Str)
    → repeats class n s ≡ true
    → (length s ≡ n) × (all class s ≡ true)
unfolding repeats
repeats_parts class n s h = ground arith

-- `/^v=0\r?\n/`
unfoldable pub is_sdp : Str → Bool
is_sdp s =
    starts_with s (b'v' ∷ b'=' ∷ b'0' ∷ 10 ∷ [])
    || starts_with s (b'v' ∷ b'=' ∷ b'0' ∷ 13 ∷ 10 ∷ [])

abbrev pub candidate_prefix : Str
candidate_prefix = codes "candidate:"

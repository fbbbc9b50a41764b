-- ===== src/Signaling/Hash.antt =====
-- `timingSafeEqualHex` of signaling/src/index.ts: two hexadecimal texts are compared by the bytes
-- that they stand for, with what `parseInt` makes of other pairs of characters. Where the source
-- throws (a text with no pair of characters on one line, or texts with unequal numbers of pairs) the
-- model says `false`; its callers pass SHA-256 texts, hashes and room names, for which it does not.
pub mod Laws
use laptop_as_a_second_monit.Common.{
  ℕ, ◌+◌, ◌-◌, ◌*◌, ◌%◌, Bool, true, false, ◌&&◌, ◌||◌, not, Option, none, some, List, [], ◌∷◌, Str,
  length, str_eq, in_range, if◌then◌else◌, ◌==◌, any,
}

-- The value of a digit in base 16.
unfoldable pub digit_value : ℕ → Option ℕ
digit_value c =
    if in_range b'0' b'9' c
    then some (c - b'0')
    else if in_range b'a' b'f' c
    then some (c - b'a' + 10)
    else if in_range b'A' b'F' c
    then some (c - b'A' + 10)
    else none

-- The white space that `parseInt` skips, apart from line terminators.
is_space : ℕ → Bool
is_space c =
    c == 9
    || c == 11
    || c == 12
    || c == 32
    || c == 0xa0
    || c == 0x1680
    || in_range 0x2000 0x200a c
    || c == 0x202f
    || c == 0x205f
    || c == 0x3000
    || c == 0xfeff

-- What `.` does not match.
unfoldable pub is_line_end : ℕ → Bool
is_line_end c = c == 10 || c == 13 || c == 0x2028 || c == 0x2029

-- `NaN` is stored as 0.
abbrev or_zero : Option ℕ → ℕ
or_zero none = 0
or_zero (some n) = n

-- `parseInt` of two characters in base 16, stored in a byte.
unfoldable pub parse_byte : ℕ → ℕ → ℕ
unfolding digit_value is_space
parse_byte c d = elim (digit_value c) [
  | some m ↦ elim (digit_value d) [ some n ↦ 16 * m + n | none ↦ m ]
  | none ↦
      if is_space c || c == b'+'
      then or_zero (digit_value d)
      else if c == b'-'
      then (256 - or_zero (digit_value d)) % 256
      else 0
]

-- The bytes of the matches of `/../g`.
unfoldable pub parse_bytes : Str → List ℕ
unfolding parse_byte is_line_end
parse_bytes [] = []
parse_bytes (c ∷ []) = []
parse_bytes (c ∷ d ∷ s) =
    let skip_one = parse_bytes (d ∷ s) in
    let skip_two = parse_bytes s in
    if is_line_end c
    then skip_one
    else if is_line_end d
    then skip_two
    else parse_byte c d ∷ skip_two

abbrev is_empty : List ℕ → Bool
is_empty [] = true
is_empty (_ ∷ _) = false

unfoldable pub timing_safe_equal_hex : Str → Str → Bool
timing_safe_equal_hex a b =
    if not (length a == length b) || length a == 0 || not (length a % 2 == 0)
    then false
    else not (is_empty (parse_bytes a)) && str_eq (parse_bytes a) (parse_bytes b)

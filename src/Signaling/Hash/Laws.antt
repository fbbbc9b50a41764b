-- ===== src/Signaling/Hash/Laws.antt =====
-- On lower-case hexadecimal texts of even length, `timingSafeEqualHex` is equality.
use laptop_as_a_second_monit.Common.{
  ℕ, ◌+◌, ◌-◌, ◌*◌, ◌%◌, ◌<◌, ◌≡◌, refl, ◌↔◌, true, false, some, [], ◌∷◌, Str, length, str_eq_iff,
  str_eq_refl, ◌≢◌, if◌then◌else◌, all, arith, leb,
}
use laptop_as_a_second_monit.Protocol.Pattern.{is_hex_digit}
use laptop_as_a_second_monit.Signaling.Hash.{
  digit_value, is_line_end, parse_byte, parse_bytes, is_empty, timing_safe_equal_hex,
}

-- The value of a lower-case digit.
abbrev hex_value : ℕ → ℕ
hex_value c = if leb c b'9' then c - b'0' else c - b'a' + 10

digit_value_hex : (c : ℕ) → is_hex_digit c ≡ true → digit_value c ≡ some (hex_value c)
unfolding digit_value
digit_value_hex c h = ground arith

hex_value_lt : (c : ℕ) → is_hex_digit c ≡ true → hex_value c < 16
hex_value_lt c h = ground arith

hex_value_injective :
    (c d : ℕ) → is_hex_digit c ≡ true → is_hex_digit d ≡ true → hex_value c ≡ hex_value d → c ≡ d
hex_value_injective c d h k e = ground arith

not_line_end : (c : ℕ) → is_hex_digit c ≡ true → is_line_end c ≡ false
unfolding is_line_end
not_line_end c h = ground arith

parse_byte_hex :
    (c d : ℕ)
    → is_hex_digit c ≡ true
    → is_hex_digit d ≡ true
    → parse_byte c d ≡ 16 * hex_value c + hex_value d
unfolding parse_byte
parse_byte_hex c d h k = ground (arith, digit_value_hex c h, digit_value_hex d k)

parse_byte_injective :
    (a b c d : ℕ)
    → is_hex_digit a ≡ true
    → is_hex_digit b ≡ true
    → is_hex_digit c ≡ true
    → is_hex_digit d ≡ true
    → parse_byte a b ≡ parse_byte c d
    → (a ≡ c) × (b ≡ d)
parse_byte_injective a b c d ha hb hc hd e =
    let p = parse_byte_hex a b ha hb in
    let q = parse_byte_hex c d hc hd in
    let la = hex_value_lt a ha in
    let lb = hex_value_lt b hb in
    let lc = hex_value_lt c hc in
    let ld = hex_value_lt d hd in
    (hex_value_injective a c ha hc (omega arith), hex_value_injective b d hb hd (omega arith))

parse_bytes_hex :
    (c d : ℕ) (s : Str)
    → is_hex_digit c ≡ true
    → is_hex_digit d ≡ true
    → parse_bytes (c ∷ d ∷ s) ≡ parse_byte c d ∷ parse_bytes s
unfolding parse_bytes
parse_bytes_hex c d s h k = rw (not_line_end c h) (rw (not_line_end d k))

parse_bytes_injective :
    (a b : Str)
    → all is_hex_digit a ≡ true
    → all is_hex_digit b ≡ true
    → length a ≡ length b
    → length a % 2 ≡ 0
    → parse_bytes a ≡ parse_bytes b
    → a ≡ b
parse_bytes_injective [] [] ha hb l m e = refl
parse_bytes_injective [] (c ∷ b) ha hb l m e = absurd (omega arith)
parse_bytes_injective (c ∷ a) [] ha hb l m e = absurd (omega arith)
parse_bytes_injective (c ∷ []) (d ∷ b) ha hb l m e = absurd (omega arith)
parse_bytes_injective (c ∷ c' ∷ a) (d ∷ []) ha hb l m e = absurd (omega arith)
parse_bytes_injective (c ∷ c' ∷ a) (d ∷ d' ∷ b) ha hb l m e =
    let hc : is_hex_digit c ≡ true = ground arith in
    let hc' : is_hex_digit c' ≡ true = ground arith in
    let hd : is_hex_digit d ≡ true = ground arith in
    let hd' : is_hex_digit d' ≡ true = ground arith in
    let rest_a : all is_hex_digit a ≡ true = ground arith in
    let rest_b : all is_hex_digit b ≡ true = ground arith in
    ground (
      arith,
      parse_bytes_hex c c' a hc hc',
      parse_bytes_hex d d' b hd hd',
      parse_byte_injective c c' d d' hc hc' hd hd',
      parse_bytes_injective a b rest_a rest_b (omega arith) (omega arith),
    )

bytes_not_empty :
    (a : Str)
    → all is_hex_digit a ≡ true
    → length a % 2 ≡ 0
    → length a ≢ 0
    → is_empty (parse_bytes a) ≡ false
bytes_not_empty [] h m n = absurd (n refl)
bytes_not_empty (c ∷ []) h m n = absurd (omega arith)
bytes_not_empty (c ∷ d ∷ a) h m n = rw (parse_bytes_hex c d a (ground arith) (ground arith))

-- Between lower-case hexadecimal texts of a positive even length, the comparison says `true` exactly
-- for equal texts.
pub timing_safe_equal_hex_iff :
    (a b : Str)
    → all is_hex_digit a ≡ true
    → all is_hex_digit b ≡ true
    → length a % 2 ≡ 0
    → length a ≢ 0
    → (timing_safe_equal_hex a b ≡ true) ↔ (a ≡ b)
unfolding timing_safe_equal_hex
timing_safe_equal_hex_iff a b ha hb m n = (
  λ e. ground (arith, str_eq_iff (parse_bytes a) (parse_bytes b), parse_bytes_injective a b ha hb),
  λ e. rw (← e) (ground (arith, str_eq_refl (parse_bytes a), bytes_not_empty a ha m n)),
)

-- ===== src/Protocol/Hex/Laws.antt =====
-- A digest's hexadecimal text has the form that the protocol's patterns ask for.
use laptop_as_a_second_monit.Common.{
  ℕ, zero, suc, ◌*◌, ◌/◌, ◌%◌, ◌<◌, ◌≤◌, ◌≡◌, refl, ap, Bool, true, List, [], ◌∷◌, Str, length, all,
  All, arith, take,
}
use laptop_as_a_second_monit.Protocol.Pattern.{is_hex_digit, is_room, is_hash, repeats}
use laptop_as_a_second_monit.Protocol.Hex.{hex_digit, hex, Digest, sha256_hex, room_for_secret}

abbrev pub IsByte : ℕ → Type 0
IsByte b = b < 256

hex_digit-is_hex_digit : (n : ℕ) → n < 16 → is_hex_digit (hex_digit n) ≡ true
unfolding hex_digit
hex_digit-is_hex_digit n h = ground arith

pub hex-length : (bs : List ℕ) → length (hex bs) ≡ 2 * length bs
unfolding hex
hex-length [] = omega arith
hex-length (b ∷ bs) = omega (arith, hex-length bs)

pub hex-all : (bs : List ℕ) → All IsByte bs → all is_hex_digit (hex bs) ≡ true
unfolding hex
hex-all [] h = refl
hex-all (b ∷ bs) (h, hs) =
    rw (hex_digit-is_hex_digit (b / 16) (omega arith))
      (rw (hex_digit-is_hex_digit (b % 16) (omega arith)) (hex-all bs hs))

hex_digit_injective : (m n : ℕ) → m < 16 → n < 16 → hex_digit m ≡ hex_digit n → m ≡ n
unfolding hex_digit
hex_digit_injective m n h k e = ground arith

-- Two lists of bytes with one hexadecimal text are equal.
pub hex_injective : (xs ys : List ℕ) → All IsByte xs → All IsByte ys → hex xs ≡ hex ys → xs ≡ ys
unfolding hex
hex_injective [] [] h k e = refl
hex_injective [] (y ∷ ys) h k e = cc
hex_injective (x ∷ xs) [] h k e = cc
hex_injective (x ∷ xs) (y ∷ ys) (h, hs) (k, ks) e = ground (
  arith,
  hex_digit_injective (x / 16) (y / 16) (omega arith) (omega arith),
  hex_digit_injective (x % 16) (y % 16) (omega arith) (omega arith),
  hex_injective xs ys hs ks,
)

all-take : (p : ℕ → Bool) (n : ℕ) (s : Str) → all p s ≡ true → all p (take n s) ≡ true
all-take p zero s h = refl
all-take p (suc n) [] h = refl
all-take p (suc n) (c ∷ s) h = ground (arith, all-take p n s)

length-take_le : (n : ℕ) (s : Str) → n ≤ length s → length (take n s) ≡ n
length-take_le zero s h = refl
length-take_le (suc n) [] h = elim h [ ]
length-take_le (suc n) (c ∷ s) h = ap suc (length-take_le n s (omega arith))

-- Where the digest of a credential is 32 bytes, its text passes as a hash, and the room that it names
-- passes the worker's test of room names.
pub sha256_hex-is_hash :
    (digest : Digest) (text : Str)
    → length (digest text) ≡ 32
    → All IsByte (digest text)
    → (is_hash (sha256_hex digest text) ≡ true) × (is_room (room_for_secret digest text) ≡ true)
unfolding room_for_secret sha256_hex repeats
sha256_hex-is_hash digest text n h =
    let l = hex-length (digest text) in
    let d = hex-all (digest text) h in
    let long : length (hex (digest text)) ≡ 64 = omega (arith, l) in
    let short = length-take_le 32 (hex (digest text)) (omega arith) in
    let first = all-take is_hex_digit 32 (hex (digest text)) d in (ground arith, ground arith)

-- ===== src/Protocol/Hex.antt =====
-- Hexadecimal texts of shared/protocol.ts. SHA-256 over the UTF-8 of a text is an argument.
pub mod Laws
use laptop_as_a_second_monit.Common.{
  ℕ, ◌+◌, ◌-◌, ◌/◌, ◌%◌, ◌≡◌, Bool, List, [], ◌∷◌, Str, if◌then◌else◌, ltb, take,
}

unfoldable pub hex_digit : ℕ → ℕ
hex_digit n = if ltb n 10 then b'0' + n else b'a' + (n - 10)

-- `Array.from(bytes, (b) => b.toString(16).padStart(2, "0")).join("")`, for bytes.
unfoldable pub hex : List ℕ → Str
unfolding hex_digit
hex [] = []
hex (b ∷ bs) = hex_digit (b / 16) ∷ hex_digit (b % 16) ∷ hex bs

-- `crypto.subtle.digest("SHA-256", new TextEncoder().encode(text))`
abbrev pub Digest : Type 0
Digest = Str → List ℕ

unfoldable pub sha256_hex : Digest → Str → Str
sha256_hex digest text = hex (digest text)

unfoldable pub room_for_secret : Digest → Str → Str
room_for_secret digest secret = take 32 (sha256_hex digest secret)

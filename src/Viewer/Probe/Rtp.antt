-- ===== src/Viewer/Probe/Rtp.antt =====
-- `rtpAfter` of viewer/src/probe.ts, over numbers without a fraction.
use laptop_as_a_second_monit.Common.{
  ℕ, ◌+◌, ◌-◌, ◌%◌, ◌<◌, ◌≡◌, ◌≢◌, ◌⊎◌, ◌↔◌, Bool, true, false, ◌&&◌, not, ltb, ◌==◌, arith,
}

abbrev pub u32 : ℕ
u32 = 0x100000000

-- `(a - b) >>> 0`
abbrev pub difference : ℕ → ℕ → ℕ
difference a b = (a % u32 + u32 - b % u32) % u32

unfoldable pub rtp_after : ℕ → ℕ → Bool
rtp_after a b = let d = difference a b in not (d == 0) && ltb d 0x80000000

-- A timestamp that is `k` ticks ahead, whether or not the counter has wrapped, is after another exactly
-- for a positive `k` below half the range.
pub rtp_after-add :
    (b k : ℕ) → k < u32 → (rtp_after ((b + k) % u32) b ≡ true) ↔ ((0 < k) × (k < 0x80000000))
unfolding rtp_after
rtp_after-add b k h = ground arith

abbrev pub Order : ℕ → ℕ → Type 0
Order a b =
    ((a ≡ b) × (rtp_after a b ≡ false) × (rtp_after b a ≡ false))
    ⊎ ((a ≢ b) × (rtp_after a b ≡ true) × (rtp_after b a ≡ false))
    ⊎ ((a ≢ b) × (rtp_after a b ≡ false) × (rtp_after b a ≡ true))
    ⊎ ((difference a b ≡ 0x80000000) × (rtp_after a b ≡ false) × (rtp_after b a ≡ false))

-- Of two 32-bit timestamps one holds: they are equal, the first is after the second, the second
-- is after the first, or they are half the range apart.
rtp_after-Order : (a b : ℕ) → a < u32 → b < u32 → Order a b
unfolding rtp_after
rtp_after-Order a b h k = ground arith

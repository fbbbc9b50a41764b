-- ===== src/Viewer/Probe/Grid/Tiling.antt =====
-- The cells of the luma grid tile the picture.
use native.Mathlib.Nat.{le-div_iff_mul-le, div-mul-le_self, mul-div_cancel_left}
use laptop_as_a_second_monit.Common.{
  ℕ, zero, suc, ◌+◌, ◌-◌, ◌*◌, ◌≤◌, ◌<◌, ◌≡◌, inl, inr, arith, Bool-cases, ltb, leb, subst,
}
use laptop_as_a_second_monit.Viewer.Probe.Grid.{cell_start}

pub cell_start_suc_le : (n size i : ℕ) → 0 < n → cell_start n size i ≤ cell_start n size (i + 1)
cell_start_suc_le n size i h =
    (le-div_iff_mul-le h).1 (ground (arith, div-mul-le_self (i * size) n))

cell_start_le : (n size i k : ℕ) → 0 < n → cell_start n size i ≤ cell_start n size (i + k)
cell_start_le n size i zero h = grind arith
cell_start_le n size i (suc k) h =
    ground (arith, cell_start_le n size i k h, cell_start_suc_le n size (i + k) h)

pub cell_start_lt :
    (n size i : ℕ) → 0 < n → n ≤ size → cell_start n size i < cell_start n size (i + 1)
cell_start_lt n size i h le = (le-div_iff_mul-le h).1 (ground (arith, div-mul-le_self (i * size) n))

cell_start_last : (n size : ℕ) → 0 < n → cell_start n size n ≡ size
cell_start_last n size h = mul-div_cancel_left size h

-- Position `x` is one of those of cell `i`.
abbrev pub IsIn : (n size i x : ℕ) → Type 0
IsIn n size i x = (cell_start n size i ≤ x) × (x < cell_start n size (i + 1))

IsIn-some_cell :
    (n size k x : ℕ) → 0 < n → x < cell_start n size k → (i : ℕ) × (i < k) × IsIn n size i x
IsIn-some_cell n size zero x h lt = absurd (grind arith)
IsIn-some_cell n size (suc k) x h lt = elim (Bool-cases (ltb x (cell_start n size k))) [
  | inl e ↦ let (i, l, m) = IsIn-some_cell n size k x h (ground arith) in (i, omega arith, m)
  | inr e ↦ (k, omega arith, (ground arith, grind arith))
]

IsIn-one_cell : (n size i j x : ℕ) → 0 < n → IsIn n size i x → IsIn n size j x → j ≤ i
IsIn-one_cell n size i j x h (a, b) (c, d) = elim (Bool-cases (leb j i)) [
  | inl e ↦ ground arith
  | inr e ↦
      let far = cell_start_le n size (i + 1) (j - (i + 1)) h in
      let same : i + 1 + (j - (i + 1)) ≡ j = ground arith in
      absurd (omega (arith, subst (λ k. cell_start n size (i + 1) ≤ cell_start n size k) same far))
]

-- With at most as many columns and rows as the picture has pixels, no cell is empty, and each pixel lies
-- in exactly one cell.
pub pixel-IsIn :
    (cols rows width height x y : ℕ)
    → 0 < cols
    → cols ≤ width
    → 0 < rows
    → rows ≤ height
    → x < width
    → y < height
    → ((c r : ℕ)
        → (cell_start cols width c < cell_start cols width (c + 1))
          × (cell_start rows height r < cell_start rows height (r + 1)))
      × ((c : ℕ) × (r : ℕ) × (c < cols)
          × (r < rows)
          × IsIn cols width c x
          × IsIn rows height r y
          × ((d s : ℕ) → IsIn cols width d x → IsIn rows height s y → (d ≡ c) × (s ≡ r)))
pixel-IsIn cols rows width height x y h hw k kh hx hy =
    let (c, cl, cm) = IsIn-some_cell cols width cols x h (rw (cell_start_last cols width h) hx) in
    let (r, rl, rm) = IsIn-some_cell rows height rows y k (rw (cell_start_last rows height k) hy) in
    (
      λ c r. (cell_start_lt cols width c h hw, cell_start_lt rows height r k kh),
      (
        c,
        r,
        cl,
        rl,
        cm,
        rm,
        λ d s p q. (
          omega
              (arith, IsIn-one_cell cols width c d x h cm p, IsIn-one_cell cols width d c x h p cm),
          omega (
            arith,
            IsIn-one_cell rows height r s y k rm q,
            IsIn-one_cell rows height s r y k q rm,
          ),
        ),
      ),
    )

pub cell_start_below : (n size i : ℕ) → i < n → cell_start n size (i + 1) ≤ size
cell_start_below n size i lt =
    let far = cell_start_le n size (i + 1) (n - (i + 1)) (omega arith) in
    let same : i + 1 + (n - (i + 1)) ≡ n = ground arith in
    let last = cell_start_last n size (omega arith) in
    omega (arith, last, subst (λ k. cell_start n size (i + 1) ≤ cell_start n size k) same far)

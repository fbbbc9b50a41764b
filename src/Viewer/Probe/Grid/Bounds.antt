-- ===== src/Viewer/Probe/Grid/Bounds.antt =====
-- What a cell of the luma grid holds.
use native.Mathlib.Nat.{le-div_iff_mul-le, div-lt_iff_lt-mul}
use laptop_as_a_second_monit.Common.{
  ℕ, zero, suc, ◌+◌, ◌-◌, ◌*◌, ◌/◌, ◌≤◌, ◌<◌, ◌≡◌, refl, inl, inr, arith, Bool-cases, ltb, some,
  List, [], ◌∷◌, length, get_elem?, All, ◌==◌, min,
}
use laptop_as_a_second_monit.Viewer.Probe.Grid.{
  cell_start, Sums, add_pixel, add_row, add_rows, no_sums, mean_of, detail_of, cell_sums, cell,
}
use laptop_as_a_second_monit.Viewer.Probe.Grid.Tiling.{cell_start_lt, cell_start_below}

-- The sums are numbers, of `count` samples between `lo` and `hi` and `pairs` differences.
pub record Within (lo hi : ℕ) (s : Sums) : Type 0 where
  pub total : ℕ
  pub slope : ℕ
  pub is_total : s.sum ≡ some total
  pub is_slope : s.gradient ≡ some slope
  pub total_low : s.count * lo ≤ total
  pub total_high : total ≤ s.count * hi
  pub slope_high : slope ≤ s.pairs * (hi - lo)

-- The samples of the plane.
abbrev pub IsSample : ℕ → ℕ → ℕ → Type 0
IsSample lo hi v = (lo ≤ v) × (v ≤ hi)

get_elem?-All :
    (P : ℕ → Type 0) (l : List ℕ) (i : ℕ)
    → All P l
    → i < length l
    → (v : ℕ) × (get_elem? l i ≡ some v) × P v
get_elem?-All P [] i h lt = absurd (omega arith)
get_elem?-All P (x ∷ l) zero (h, hs) lt = (x, refl, h)
get_elem?-All P (x ∷ l) (suc i) (h, hs) lt = get_elem?-All P l i hs (omega arith)

mul_le_of_le : (k m n : ℕ) → m ≤ n → m * k ≤ n * k
mul_le_of_le k m n h = grind arith

module _ (lo hi : ℕ) (luma : List ℕ) (samples : All (IsSample lo hi) luma) where
  add_pixel-Within :
      (row x x1 : ℕ) (s : Sums)
      → x < x1
      → row + x1 ≤ length luma
      → Within lo hi s
      → Within lo hi (add_pixel luma row x1 x s)
  unfolding add_pixel
  add_pixel-Within row x x1 s lt room w =
      let (v, e, (v_low, v_high)) =
        get_elem?-All (IsSample lo hi) luma (row + x) samples (omega arith) in
      elim (Bool-cases (ltb (x + 1) x1)) [
        | inl k ↦
            let (u, d, (u_low, u_high)) =
              get_elem?-All (IsSample lo hi) luma (row + x + 1) samples (ground arith) in
            rw k (record {
              total = w.total + v;
              slope = w.slope + ((u - v) + (v - u));
              is_total = rw (e, w.is_total) refl;
              is_slope = rw (e, d, w.is_slope) refl;
              total_low = grind (arith, w.total_low);
              total_high = grind (arith, w.total_high);
              slope_high = grind (arith, w.slope_high);
            })
        | inr k ↦ rw k (record {
          total = w.total + v;
          slope = w.slope;
          is_total = rw (e, w.is_total) refl;
          is_slope = w.is_slope;
          total_low = grind (arith, w.total_low);
          total_high = grind (arith, w.total_high);
          slope_high = w.slope_high;
        })
      ]

  add_row-Within :
      (row x1 n x : ℕ) (s : Sums)
      → x + n ≤ x1
      → row + x1 ≤ length luma
      → Within lo hi s
      → Within lo hi (add_row luma row x1 n x s)
  unfolding add_row
  add_row-Within row x1 zero x s le room w = w
  add_row-Within row x1 (suc n) x s le room w =
      add_row-Within row x1 n (x + 1) (add_pixel luma row x1 x s) (omega arith) room
        (add_pixel-Within row x x1 s (omega arith) room w)

  add_rows-Within :
      (stride height x0 x1 n y : ℕ) (s : Sums)
      → y + n ≤ height
      → x1 ≤ stride
      → height * stride ≤ length luma
      → x0 ≤ x1
      → Within lo hi s
      → Within lo hi (add_rows luma stride x0 x1 n y s)
  unfolding add_rows
  add_rows-Within stride height x0 x1 zero y s le wide room order w = w
  add_rows-Within stride height x0 x1 (suc n) y s le wide room order w =
      let next : y + 1 ≤ height = omega arith in
      let inside : y * stride + x1 ≤ length luma =
        grind (arith, mul_le_of_le stride (y + 1) height next) in
      add_rows-Within stride height x0 x1 n (y + 1) (add_row luma (y * stride) x1 (x1 - x0) x0 s)
        (omega arith) wide room order
        (add_row-Within (y * stride) x1 (x1 - x0) x0 s (omega arith) inside w)

count-add_pixel :
    (luma : List ℕ) (row x1 x : ℕ) (s : Sums) → (add_pixel luma row x1 x s).count ≡ s.count + 1
unfolding add_pixel
count-add_pixel luma row x1 x s = ground arith

count-add_row :
    (luma : List ℕ) (row x1 n x : ℕ) (s : Sums) → (add_row luma row x1 n x s).count ≡ s.count + n
unfolding add_row
count-add_row luma row x1 zero x s = omega arith
count-add_row luma row x1 (suc n) x s = omega (
  arith,
  count-add_row luma row x1 n (x + 1) (add_pixel luma row x1 x s),
  count-add_pixel luma row x1 x s,
)

pub count-add_rows :
    (luma : List ℕ) (stride x0 x1 n y : ℕ) (s : Sums)
    → (add_rows luma stride x0 x1 n y s).count ≡ s.count + n * (x1 - x0)
unfolding add_rows
count-add_rows luma stride x0 x1 zero y s = grind arith
count-add_rows luma stride x0 x1 (suc n) y s = grind (
  arith,
  count-add_rows luma stride x0 x1 n (y + 1) (add_row luma (y * stride) x1 (x1 - x0) x0 s),
  count-add_row luma (y * stride) x1 (x1 - x0) x0 s,
)

-- A rounded quotient of a sum within bounds is within the bounds.
rounded :
    (count total lo hi : ℕ)
    → 0 < count
    → count * lo ≤ total
    → total ≤ count * hi
    → (lo ≤ (total + count / 2) / count) × ((total + count / 2) / count ≤ hi)
rounded count total lo hi h low high =
    let up : (total + count / 2) / count < hi + 1 = (div-lt_iff_lt-mul h).1 (grind arith) in
    ((le-div_iff_mul-le h).1 (grind arith), omega arith)

mean-Within :
    (lo hi : ℕ) (s : Sums)
    → hi < 256
    → 0 < s.count
    → Within lo hi s
    → (lo ≤ mean_of s) × (mean_of s ≤ hi)
unfolding mean_of
mean-Within lo hi s h pos w =
    let r = rounded s.count w.total lo hi pos w.total_low w.total_high in
    rw w.is_total (ground arith)

detail-Within : (lo hi : ℕ) (s : Sums) → Within lo hi s → detail_of s ≤ min 255 (4 * (hi - lo))
unfolding detail_of
detail-Within lo hi s w = elim (Bool-cases (s.pairs == 0)) [
  | inl e ↦ rw e (omega arith)
  | inr e ↦
      let bound : w.slope * 4 ≤ s.pairs * (4 * (hi - lo)) = grind (arith, w.slope_high) in
      let r = rounded s.pairs (w.slope * 4) 0 (4 * (hi - lo)) (ground arith) (grind arith) bound in
      rw (e, w.is_slope) (ground arith)
]

-- Where every sample of a plane lies between two values, the mean of each cell does, and its detail is at
-- most four times their difference: in particular a flat picture has no detail.
pub cell-Within :
    (lo hi : ℕ) (luma : List ℕ) (width height stride cols rows r c : ℕ)
    → All (IsSample lo hi) luma
    → hi < 256
    → cols ≤ width
    → rows ≤ height
    → width ≤ stride
    → height * stride ≤ length luma
    → c < cols
    → r < rows
    → (lo ≤ (cell luma width height stride cols rows r c).mean)
      × ((cell luma width height stride cols rows r c).mean ≤ hi)
      × ((cell luma width height stride cols rows r c).detail ≤ min 255 (4 * (hi - lo)))
unfolding cell cell_sums
cell-Within lo hi luma width height stride cols rows r c samples h hw hh wide room lc lr =
    let y0 = cell_start rows height r in
    let y1 = cell_start rows height (r + 1) in
    let x0 = cell_start cols width c in
    let x1 = cell_start cols width (c + 1) in
    let ys = cell_start_lt rows height r (omega arith) hh in
    let xs = cell_start_lt cols width c (omega arith) hw in
    let low = cell_start_below rows height r lr in
    let right = cell_start_below cols width c lc in
    let s = add_rows luma stride x0 x1 (y1 - y0) y0 no_sums in
    let w : Within lo hi s =
      add_rows-Within lo hi luma samples stride height x0 x1 (y1 - y0) y0 no_sums (omega arith)
        (omega arith) room (omega arith)
        (record {
          total = 0;
          slope = 0;
          is_total = refl;
          is_slope = refl;
          total_low = omega arith;
          total_high = omega arith;
          slope_high = omega arith;
        }) in
    let some_samples : 0 < s.count =
      grind (arith, count-add_rows luma stride x0 x1 (y1 - y0) y0 no_sums) in
    let (a, b) = mean-Within lo hi s h some_samples w in (a, b, detail-Within lo hi s w)

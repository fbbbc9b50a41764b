-- ===== src/Viewer/Probe/Grid.antt =====
-- `lumaFromRgb`, `lumaGridFromPlane` and `lumaGrid` of viewer/src/probe.ts. A sample behind the end of
-- the plane is `undefined`, which makes a sum NaN (`none`); NaN is stored as 0 in a byte.
pub mod Tiling
pub mod Bounds
pub mod Cells
pub mod Rgba
use mathlib.Core.Option
use laptop_as_a_second_monit.Common.{
  ℕ, zero, suc, ◌+◌, ◌-◌, ◌*◌, ◌/◌, ◌%◌, Bool, true, false, Option, none, some, List, [], ◌∷◌, ◌++◌,
  get_elem?, ltb, leb, if◌then◌else◌, min, map, ◌==◌,
}

-- The value without rounding errors; the source computes in binary fractions.
unfoldable pub luma_from_rgb : ℕ → ℕ → ℕ → ℕ
luma_from_rgb r g b = min 255 ((42075000 + (2126 * r + 7152 * g + 722 * b) * 219) / 2550000)

-- `Math.floor((i * size) / n)`: where cell `i` of `n` begins.
abbrev pub cell_start : ℕ → ℕ → ℕ → ℕ
cell_start n size i = i * size / n

-- Sums of a cell; `none` is NaN.
pub record Sums : Type 0 where
  pub sum : Option ℕ
  pub gradient : Option ℕ
  pub count : ℕ
  pub pairs : ℕ

abbrev pub plus : Option ℕ → Option ℕ → Option ℕ
plus (some a) (some b) = some (a + b)
plus _ _ = none

-- `Math.abs(a - b)`
abbrev pub distance : Option ℕ → Option ℕ → Option ℕ
distance (some a) (some b) = some ((a - b) + (b - a))
distance _ _ = none

-- The body of the innermost loop.
unfoldable pub add_pixel : List ℕ → ℕ → ℕ → ℕ → Sums → Sums
add_pixel luma row x1 x s =
    let t = record s { sum = plus s.sum (get_elem? luma (row + x)); count = s.count + 1 } in
    if ltb (x + 1) x1
    then record t {
      gradient =
          plus s.gradient (distance (get_elem? luma (row + x + 1)) (get_elem? luma (row + x)));
      pairs = s.pairs + 1;
    }
    else t

-- `for (let x = …; x < x1; ++x)`, over the rounds that are left.
unfoldable pub add_row : List ℕ → ℕ → ℕ → ℕ → ℕ → Sums → Sums
add_row luma row x1 zero x s = s
add_row luma row x1 (suc n) x s = add_row luma row x1 n (x + 1) (add_pixel luma row x1 x s)

unfoldable pub add_rows : List ℕ → ℕ → ℕ → ℕ → ℕ → ℕ → Sums → Sums
add_rows luma stride x0 x1 zero y s = s
add_rows luma stride x0 x1 (suc n) y s =
    add_rows luma stride x0 x1 n (y + 1) (add_row luma (y * stride) x1 (x1 - x0) x0 s)

-- A number stored in a `Uint8Array`.
abbrev pub byte : Option ℕ → ℕ
byte none = 0
byte (some n) = n % 256

unfoldable pub mean_of : Sums → ℕ
mean_of s = if s.count == 0 then 0 else byte (Option.map (λ n. (n + s.count / 2) / s.count) s.sum)

unfoldable pub detail_of : Sums → ℕ
detail_of s =
    if s.pairs == 0
    then 0
    else byte (Option.map (λ g. min 255 ((g * 4 + s.pairs / 2) / s.pairs)) s.gradient)

abbrev pub no_sums : Sums
no_sums = record { sum = some 0; gradient = some 0; count = 0; pairs = 0 }

-- The sums of the cell in row `r` and column `c`.
unfoldable pub cell_sums : List ℕ → (width height stride cols rows r c : ℕ) → Sums
cell_sums luma width height stride cols rows r c =
    let y0 = cell_start rows height r in
    let y1 = cell_start rows height (r + 1) in
    let x0 = cell_start cols width c in
    let x1 = cell_start cols width (c + 1) in add_rows luma stride x0 x1 (y1 - y0) y0 no_sums

pub record Cell : Type 0 where
  pub mean : ℕ
  pub detail : ℕ

unfoldable pub cell : List ℕ → (width height stride cols rows r c : ℕ) → Cell
cell luma width height stride cols rows r c =
    let s = cell_sums luma width height stride cols rows r c in
    record { mean = mean_of s; detail = detail_of s }

-- The cells of a row, and of the grid, in the order of their index `r * cols + c`.
unfoldable pub row_cells : List ℕ → (width height stride cols rows r n c : ℕ) → List Cell
row_cells luma width height stride cols rows r zero c = []
row_cells luma width height stride cols rows r (suc n) c =
    cell luma width height stride cols rows r c
    ∷ row_cells luma width height stride cols rows r n (c + 1)

unfoldable pub grid_cells : List ℕ → (width height stride cols rows n r : ℕ) → List Cell
grid_cells luma width height stride cols rows zero r = []
grid_cells luma width height stride cols rows (suc n) r =
    row_cells luma width height stride cols rows r cols 0
    ++ grid_cells luma width height stride cols rows n (r + 1)

pub record Grid : Type 0 where
  pub cols : ℕ
  pub rows : ℕ
  pub cells : List Cell

unfoldable pub luma_grid_from_plane : List ℕ → (width height stride cols rows : ℕ) → Grid
luma_grid_from_plane luma width height stride cols rows = record {
  cols = cols;
  rows = rows;
  cells = grid_cells luma width height stride cols rows rows 0;
}

-- The first `n` pixels of four bytes each; a byte that is missing counts as NaN, which is stored as 0.
unfoldable pub rgba_luma : ℕ → List ℕ → List ℕ
rgba_luma zero pixels = []
rgba_luma (suc n) (r ∷ g ∷ b ∷ a ∷ rest) = luma_from_rgb r g b ∷ rgba_luma n rest
rgba_luma (suc n) (r ∷ g ∷ b ∷ []) = luma_from_rgb r g b ∷ rgba_luma n []
rgba_luma (suc n) _ = 0 ∷ rgba_luma n []

unfoldable pub luma_grid : List ℕ → (width height cols rows : ℕ) → Grid
luma_grid rgba width height cols rows =
    luma_grid_from_plane (rgba_luma (width * height) rgba) width height width cols rows

-- ===== src/Viewer/Probe/Grid/Rgba.antt =====
-- The grid of an RGBA image.
use laptop_as_a_second_monit.Common.{
  ℕ, zero, suc, ◌+◌, ◌*◌, ◌≤◌, ◌<◌, ◌≡◌, refl, ap, arith, some, List, [], ◌∷◌, length, get_elem?,
  All,
}
use laptop_as_a_second_monit.Viewer.Probe.Grid.{Cell, cell, luma_from_rgb, rgba_luma, luma_grid}
use laptop_as_a_second_monit.Viewer.Probe.Grid.Bounds.{IsSample, cell-Within}
use laptop_as_a_second_monit.Viewer.Probe.Grid.Cells.{luma_grid_from_plane-get_elem?}

luma_from_rgb-IsSample :
    (r g b : ℕ) → r < 256 → g < 256 → b < 256 → IsSample 16 235 (luma_from_rgb r g b)
unfolding luma_from_rgb
luma_from_rgb-IsSample r g b hr hg hb = (omega arith, omega arith)

length-rgba_luma : (n : ℕ) (pixels : List ℕ) → length (rgba_luma n pixels) ≡ n
unfolding rgba_luma
length-rgba_luma zero pixels = refl
length-rgba_luma (suc n) (r ∷ g ∷ b ∷ a ∷ rest) = ap suc (length-rgba_luma n rest)
length-rgba_luma (suc n) (r ∷ g ∷ b ∷ []) = ap suc (length-rgba_luma n [])
length-rgba_luma (suc n) (r ∷ g ∷ []) = ap suc (length-rgba_luma n [])
length-rgba_luma (suc n) (r ∷ []) = ap suc (length-rgba_luma n [])
length-rgba_luma (suc n) [] = ap suc (length-rgba_luma n [])

rgba_luma-IsSample :
    (n : ℕ) (pixels : List ℕ)
    → All (λ v. v < 256) pixels
    → 4 * n ≤ length pixels
    → All (IsSample 16 235) (rgba_luma n pixels)
unfolding rgba_luma
rgba_luma-IsSample zero pixels h k = tt
rgba_luma-IsSample (suc n) (r ∷ g ∷ b ∷ a ∷ rest) (hr, (hg, (hb, (ha, h)))) k =
    (luma_from_rgb-IsSample r g b hr hg hb, rgba_luma-IsSample n rest h (omega arith))
rgba_luma-IsSample (suc n) (r ∷ g ∷ b ∷ []) h k = absurd (omega arith)
rgba_luma-IsSample (suc n) (r ∷ g ∷ []) h k = absurd (omega arith)
rgba_luma-IsSample (suc n) (r ∷ []) h k = absurd (omega arith)
rgba_luma-IsSample (suc n) [] h k = absurd (omega arith)

-- The grid of a whole RGBA image has the mean of each cell in the limited range 16 to 235.
luma_grid-limited :
    (rgba : List ℕ) (width height cols rows r c : ℕ)
    → All (λ v. v < 256) rgba
    → 4 * (width * height) ≤ length rgba
    → cols ≤ width
    → rows ≤ height
    → r < rows
    → c < cols
    → (v : Cell) × (get_elem? (luma_grid rgba width height cols rows).cells (r * cols + c) ≡ some v)
      × (16 ≤ v.mean)
      × (v.mean ≤ 235)
unfolding luma_grid
luma_grid-limited rgba width height cols rows r c bytes whole hw hh lr lc =
    let luma = rgba_luma (width * height) rgba in
    let long = length-rgba_luma (width * height) rgba in
    let (low, high, _) =
      cell-Within 16 235 luma width height width cols rows r c
        (rgba_luma-IsSample (width * height) rgba bytes whole) (omega arith) hw hh (omega arith)
        (grind (arith, long)) lc lr in
    (
      cell luma width height width cols rows r c,
      (luma_grid_from_plane-get_elem? luma width height width cols rows).1 r c lr lc,
      low,
      high,
    )

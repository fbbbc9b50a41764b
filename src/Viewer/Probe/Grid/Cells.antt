-- ===== src/Viewer/Probe/Grid/Cells.antt =====
-- Where a cell stands in the grid.
use laptop_as_a_second_monit.Common.{
  ℕ, zero, suc, ◌+◌, ◌*◌, ◌<◌, ◌≡◌, refl, ap, arith, some, List, [], ◌∷◌, ◌++◌, length, get_elem?,
  length-append,
}
use laptop_as_a_second_monit.Viewer.Probe.Grid.{cell, row_cells, grid_cells, luma_grid_from_plane}

module _ {ℓ} {A : Type ℓ} where
  get_elem?-append_left :
      (xs ys : List A) (i : ℕ) → i < length xs → get_elem? (xs ++ ys) i ≡ get_elem? xs i
  get_elem?-append_left [] ys i h = absurd (omega arith)
  get_elem?-append_left (x ∷ xs) ys zero h = refl
  get_elem?-append_left (x ∷ xs) ys (suc i) h = get_elem?-append_left xs ys i (omega arith)

  get_elem?-append_right :
      (xs ys : List A) (i : ℕ) → get_elem? (xs ++ ys) (length xs + i) ≡ get_elem? ys i
  get_elem?-append_right [] ys i = ground arith
  get_elem?-append_right (x ∷ xs) ys i = ground (arith, get_elem?-append_right xs ys i)

module _ (luma : List ℕ) (width height stride cols rows : ℕ) where
  length-row_cells : (r n c : ℕ) → length (row_cells luma width height stride cols rows r n c) ≡ n
  unfolding row_cells
  length-row_cells r zero c = refl
  length-row_cells r (suc n) c = ap suc (length-row_cells r n (c + 1))

  get_elem?-row_cells :
      (r n c i : ℕ)
      → i < n
      → get_elem? (row_cells luma width height stride cols rows r n c) i
        ≡ some (cell luma width height stride cols rows r (c + i))
  unfolding row_cells
  get_elem?-row_cells r zero c i h = absurd (omega arith)
  get_elem?-row_cells r (suc n) c zero h = ground arith
  get_elem?-row_cells r (suc n) c (suc i) h = ground (arith, get_elem?-row_cells r n (c + 1) i)

  length-grid_cells :
      (n r : ℕ) → length (grid_cells luma width height stride cols rows n r) ≡ n * cols
  unfolding grid_cells
  length-grid_cells zero r = grind arith
  length-grid_cells (suc n) r = grind (
    arith,
    length-append (row_cells luma width height stride cols rows r cols 0)
        (grid_cells luma width height stride cols rows n (r + 1)),
    length-row_cells r cols 0,
    length-grid_cells n (r + 1),
  )

  get_elem?-grid_cells :
      (n r i c : ℕ)
      → i < n
      → c < cols
      → get_elem? (grid_cells luma width height stride cols rows n r) (i * cols + c)
        ≡ some (cell luma width height stride cols rows (r + i) c)
  unfolding grid_cells
  get_elem?-grid_cells zero r i c h k = absurd (omega arith)
  get_elem?-grid_cells (suc n) r zero c h k =
      let top = row_cells luma width height stride cols rows r cols 0 in
      let below = grid_cells luma width height stride cols rows n (r + 1) in
      let index : 0 * cols + c ≡ c = grind arith in
      let long = length-row_cells r cols 0 in
      rw index (
        ground (
          arith,
          get_elem?-append_left top below c (omega (arith, long)),
          get_elem?-row_cells r cols 0 c k,
        ))
  get_elem?-grid_cells (suc n) r (suc i) c h k =
      let top = row_cells luma width height stride cols rows r cols 0 in
      let below = grid_cells luma width height stride cols rows n (r + 1) in
      let long = length-row_cells r cols 0 in
      let index : suc i * cols + c ≡ length top + (i * cols + c) = grind (arith, long) in
      rw index (
        ground (
          arith,
          get_elem?-append_right top below (i * cols + c),
          get_elem?-grid_cells n (r + 1) i c (omega arith) k,
        ))

-- The grid has a cell for each row and column, at the index `r * cols + c`.
pub luma_grid_from_plane-get_elem? :
    (luma : List ℕ) (width height stride cols rows : ℕ)
    → (length (luma_grid_from_plane luma width height stride cols rows).cells ≡ rows * cols)
      × ((r c : ℕ)
          → r < rows
          → c < cols
          → get_elem? (luma_grid_from_plane luma width height stride cols rows).cells (r * cols + c)
            ≡ some (cell luma width height stride cols rows r c))
unfolding luma_grid_from_plane
luma_grid_from_plane-get_elem? luma width height stride cols rows = (
  length-grid_cells luma width height stride cols rows rows 0,
  λ r c h k. ground (arith, get_elem?-grid_cells luma width height stride cols rows rows 0 r c h k),
)

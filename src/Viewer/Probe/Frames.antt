-- ===== src/Viewer/Probe/Frames.antt =====
-- `readFrame` and `frameGrid` of viewer/src/probe.ts. What the track's reader and the timer answer in
-- each round is an argument.
use laptop_as_a_second_monit.Common.{
  ℕ, zero, suc, ◌*◌, ◌≤◌, ◌≡◌, ◌≢◌, refl, ap, subst, arith, Bool, true, false, ◌||◌, Option, none,
  some, List, [], ◌∷◌, ◌++◌, ltb, leb, length, if◌then◌else◌, All, any, Bool-cases, inl, inr,
}
use laptop_as_a_second_monit.Viewer.Probe.Grid.{Grid, luma_grid, luma_grid_from_plane, rgba_luma}
use laptop_as_a_second_monit.Viewer.Probe.Grid.Cells.{luma_grid_from_plane-get_elem?}

-- What `Promise.race` gives: a frame, or the end of the stream or of the time.
pub data Race {ℓ} (A : Type ℓ) : Type ℓ where
  frame : A → Race A
  ended : Race A

-- A round of the loop, with the time at its beginning.
pub record Round {ℓ} (A : Type ℓ) : Type ℓ where
  pub now : ℕ
  pub race : Race A

-- `waiting` is a loop that has no further round yet; the other case is a return value.
pub data Reading {ℓ} (A : Type ℓ) : Type ℓ where
  waiting : Reading A
  returned : Option A → Reading A

module _ {ℓ} {A : Type ℓ} where
  abbrev pub frames : List (Round A) → List A
  frames [] = []
  frames (r ∷ rs) = elim r.race [ ended ↦ frames rs | frame f ↦ f ∷ frames rs ]

  -- The frame that a result hands to the caller, who closes it.
  abbrev pub handed : Reading A → List A
  handed (returned (some f)) = f ∷ []
  handed _ = []

module _ {ℓ} {A : Type ℓ} (accept skipped : A → Bool) (deadline : ℕ) where
  -- The frames that are closed, in order, and the result.
  unfoldable pub read_frame : List (Round A) → List A × Reading A
  read_frame [] = ([], waiting)
  read_frame (r ∷ rs) =
      let (closed, result) = read_frame rs in
      if ltb r.now deadline
      then elim r.race [
        | ended ↦ ([], returned none)
        | frame f ↦
            if accept f
            then ([], returned (some f))
            else if skipped f
            then (f ∷ [], returned none)
            else (f ∷ closed, result)
      ]
      else ([], returned none)

  abbrev pub is_over : Round A → Bool
  is_over r = leb deadline r.now

  -- How a loop that closes some frames and has a result treats the frames of its rounds.
  pub record Settled (rs : List (Round A)) (closed : List A) (result : Reading A) : Type ℓ where
    pub rest : List A
    pub split : frames rs ≡ closed ++ (handed result ++ rest)
    pub refused : All (λ f. accept f ≡ false) closed
    pub accepted : All (λ f. accept f ≡ true) (handed result)
    pub ends : any is_over rs ≡ true → result ≢ waiting

  Settled-at_once : (rs : List (Round A)) → Settled rs [] (returned none)
  Settled-at_once rs = record {
    rest = frames rs;
    split = refl;
    refused = tt;
    accepted = tt;
    ends = λ h e. cc;
  }

  Settled-round :
      (t : ℕ) (x : Race A) (rs : List (Round A))
      → Settled rs (read_frame rs).0 (read_frame rs).1
      → let r : Round A = record { now = t; race = x } in
        Settled (r ∷ rs) (read_frame (r ∷ rs)).0 (read_frame (r ∷ rs)).1
  unfolding read_frame
  Settled-round t ended rs s = elim (Bool-cases (ltb t deadline)) [
    | inl e ↦ rw e (Settled-at_once _)
    | inr e ↦ rw e (Settled-at_once _)
  ]
  Settled-round t (frame f) rs s = elim (Bool-cases (ltb t deadline)) [
    | inr e ↦ rw e (Settled-at_once _)
    | inl e ↦ elim (Bool-cases (accept f)) [
      | inl a ↦
          rw (e, a)
            (record {
              rest = frames rs;
              split = refl;
              refused = tt;
              accepted = (a, tt);
              ends = λ h k. cc;
            })
      | inr a ↦ elim (Bool-cases (skipped f)) [
        | inl k ↦
            rw (e, a, k)
              (record {
                rest = frames rs;
                split = refl;
                refused = (a, tt);
                accepted = tt;
                ends = λ h m. cc;
              })
        | inr k ↦
            rw (e, a, k)
              (record {
                rest = s.rest;
                split = ap (λ l. f ∷ l) s.split;
                refused = (a, s.refused);
                accepted = s.accepted;
                ends = λ h. s.ends (ground arith);
              })
      ]
    ]
  ]

  -- The frames that were read are the closed ones, each closed once and none of them accepted, and after
  -- them the one that is returned, which is accepted; and the loop has returned once a round begins at the
  -- deadline or later.
  pub read_frame-Settled : (rs : List (Round A)) → Settled rs (read_frame rs).0 (read_frame rs).1
  unfolding read_frame
  read_frame-Settled [] = record {
    rest = [];
    split = refl;
    refused = tt;
    accepted = tt;
    ends = λ h. cc;
  }
  read_frame-Settled (r ∷ rs) = Settled-round r.now r.race rs (read_frame-Settled rs)

-- What a decoded frame gives: its planes with the offset and stride of the first, an image drawn on a
-- canvas, or nothing where there is no canvas.
pub data Picture : Type 0 where
  planar : (buffer : List ℕ) (offset stride : ℕ) → Picture
  drawn : (rgba : List ℕ) → Picture
  not_drawn : Picture

-- `buffer.subarray(offset)`
abbrev pub subarray : List ℕ → ℕ → List ℕ
subarray b zero = b
subarray [] (suc n) = []
subarray (x ∷ b) (suc n) = subarray b n

abbrev pub picture_grid : Picture → (width height cols rows : ℕ) → Option Grid
picture_grid (planar buffer offset stride) width height cols rows =
    some (luma_grid_from_plane (subarray buffer offset) width height stride cols rows)
picture_grid (drawn rgba) width height cols rows = some (luma_grid rgba width height cols rows)
picture_grid not_drawn width height cols rows = none

-- `rect` is the visible part, its width and height.
unfoldable pub frame_grid : Option (ℕ × ℕ) → Picture → (cols rows : ℕ) → Option Grid
frame_grid none picture cols rows = none
frame_grid (some (width, height)) picture cols rows =
    if ltb width cols || ltb height rows then none else picture_grid picture width height cols rows

luma_grid_from_plane_named :
    (luma : List ℕ) (width height stride cols rows : ℕ)
    → let g = luma_grid_from_plane luma width height stride cols rows in
      (g.cols ≡ cols) × (g.rows ≡ rows)
unfolding luma_grid_from_plane
luma_grid_from_plane_named luma width height stride cols rows = (refl, refl)

pub record IsFull (width height cols rows : ℕ) (g : Grid) : Type 0 where
  pub fits : (cols ≤ width) × (rows ≤ height)
  pub long : length g.cells ≡ rows * cols
  pub named : (g.cols ≡ cols) × (g.rows ≡ rows)

luma_grid_from_plane-IsFull :
    (luma : List ℕ) (width height stride cols rows : ℕ)
    → cols ≤ width
    → rows ≤ height
    → IsFull width height cols rows (luma_grid_from_plane luma width height stride cols rows)
luma_grid_from_plane-IsFull luma width height stride cols rows h k = record {
  fits = (h, k);
  long = (luma_grid_from_plane-get_elem? luma width height stride cols rows).0;
  named = luma_grid_from_plane_named luma width height stride cols rows;
}

picture_grid-IsFull :
    (picture : Picture) (width height cols rows : ℕ) {g : Grid}
    → cols ≤ width
    → rows ≤ height
    → picture_grid picture width height cols rows ≡ some g
    → IsFull width height cols rows g
unfolding luma_grid
picture_grid-IsFull (planar buffer offset stride) width height cols rows h k e =
    subst (IsFull width height cols rows) (cc e)
      (luma_grid_from_plane-IsFull (subarray buffer offset) width height stride cols rows h k)
picture_grid-IsFull (drawn rgba) width height cols rows h k e =
    subst (IsFull width height cols rows) (cc e) (
      luma_grid_from_plane-IsFull (rgba_luma (width * height) rgba) width height width cols rows h
        k)
picture_grid-IsFull not_drawn width height cols rows h k e = cc

-- A grid is made only of a frame with at least as many pixels as cells each way, and it has all its cells.
frame_grid-IsFull :
    (rect : Option (ℕ × ℕ)) (picture : Picture) (cols rows : ℕ) {g : Grid}
    → frame_grid rect picture cols rows ≡ some g
    → (width : ℕ) × (height : ℕ) × (rect ≡ some (width, height)) × IsFull width height cols rows g
unfolding frame_grid
frame_grid-IsFull none picture cols rows e = cc
frame_grid-IsFull (some (width, height)) picture cols rows e =
    elim (Bool-cases (ltb width cols || ltb height rows)) [
      | inl k ↦ absurd (ground arith)
      | inr k ↦ (
        width,
        height,
        refl,
        picture_grid-IsFull picture width height cols rows (ground arith) (ground arith)
            (ground arith),
      )
    ]

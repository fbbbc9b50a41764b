-- ===== src/Viewer/Stage/Frames.antt =====
-- `probe` and `mark` of viewer/src/stage.ts, with `frameRtp` of probe.ts: which decoded frames they read,
-- what they answer, and which frames they close. `btoa` is an argument, and so are the rounds of the
-- track's reader.
use laptop_as_a_second_monit.Common.{
  ℕ, ◌+◌, ◌≡◌, ◌<◌, refl, ap, Bool, true, false, Option, none, some, List, [], ◌∷◌, ◌++◌, Str, ◌==◌,
  append_assoc, append_nil, sym, ◌∙◌, ◌||◌, Bool-cases, if◌then◌else◌, All, map, any, leb, ◌≢◌,
  arith, Option-cases, inl, inr,
}
use laptop_as_a_second_monit.Viewer.Probe.Grid.{Grid}
use laptop_as_a_second_monit.Viewer.Probe.Rtp.{rtp_after}
use laptop_as_a_second_monit.Viewer.Probe.Frames.{
  Round, Reading, waiting, returned, frame, ended, handed, read_frame, frames, Settled,
  read_frame-Settled, Picture, frame_grid, Race,
}

-- What is read of a decoded frame: `metadata().rtpTimestamp` if it is a number, the width and height of
-- its visible rectangle, and its picture.
pub record Frame : Type 0 where
  pub rtp : Option ℕ
  pub rect : Option (ℕ × ℕ)
  pub picture : Picture

abbrev pub has_rtp : ℕ → Frame → Bool
has_rtp rtp f = elim f.rtp [ none ↦ false | some t ↦ t == rtp ]

abbrev pub is_past : ℕ → Frame → Bool
is_past rtp f = elim f.rtp [ none ↦ false | some t ↦ rtp_after t rtp ]

pub record ProbeGrid : Type 0 where
  pub rtp : ℕ
  pub cols : ℕ
  pub rows : ℕ
  pub mean : Str
  pub detail : Str

abbrev pub or_default : ℕ → Option ℕ → ℕ
or_default d none = d
or_default d (some n) = n

abbrev pub probe_timeout : ℕ
probe_timeout = 2000

-- `base64(g.mean)` and `base64(g.detail)`.
unfoldable pub encoded : (base64 : List ℕ → Str) → (rtp : ℕ) → Grid → ProbeGrid
encoded base64 rtp g = record {
  rtp = rtp;
  cols = g.cols;
  rows = g.rows;
  mean = base64 (map (λ c. c.mean) g.cells);
  detail = base64 (map (λ c. c.detail) g.cells);
}

abbrev pub grid_of : Frame → (cols rows : Option ℕ) → Option Grid
grid_of f cols rows = frame_grid f.rect f.picture (or_default 240 cols) (or_default 135 rows)

abbrev pub encoded_if : (base64 : List ℕ → Str) → (rtp : ℕ) → Option Grid → Option ProbeGrid
encoded_if base64 rtp none = none
encoded_if base64 rtp (some g) = some (encoded base64 rtp g)

-- With the frame that was read, if one was: it is closed after its grid is made.
unfoldable pub finish_probe :
    (base64 : List ℕ → Str)
    → (rtp : ℕ) → (cols rows : Option ℕ) → List Frame × Reading Frame
    → List Frame × Reading ProbeGrid
finish_probe base64 rtp cols rows (closed, waiting) = (closed, waiting)
finish_probe base64 rtp cols rows (closed, returned none) = (closed, returned none)
finish_probe base64 rtp cols rows (closed, returned (some f)) =
    (closed ++ f ∷ [], returned (encoded_if base64 rtp (grid_of f cols rows)))

-- The frames that are closed, in order, and the answer.
unfoldable pub probe :
    (base64 : List ℕ → Str)
    → (has_track : Bool) → (now rtp : ℕ) → (cols rows : Option ℕ) → List (Round Frame)
    → List Frame × Reading ProbeGrid
probe base64 has_track now rtp cols rows rs =
    if has_track
    then finish_probe base64 rtp cols rows
        (read_frame (has_rtp rtp) (is_past rtp) (now + probe_timeout) rs)
    else ([], returned none)

unfoldable pub finish_mark : List Frame × Reading Frame → List Frame × Reading (Option ℕ)
finish_mark (closed, waiting) = (closed, waiting)
finish_mark (closed, returned none) = (closed, returned (some none))
finish_mark (closed, returned (some f)) = (closed ++ f ∷ [], returned (some f.rtp))

unfoldable pub mark :
    (has_track : Bool) → (now : ℕ) → List (Round Frame) → List Frame × Reading (Option ℕ)
mark has_track now rs =
    if has_track
    then finish_mark (read_frame (λ f. true) (λ f. false) (now + 1000) rs)
    else ([], returned (some none))

-- What an answer to a probe is made of: the frame that was closed last has the timestamp, and no earlier
-- one has.
abbrev pub IsGridOf :
    (base64 : List ℕ → Str) → (rtp : ℕ) → (cols rows : Option ℕ) → List Frame → ProbeGrid → Type 0
IsGridOf base64 rtp cols rows closed p =
    (f : Frame) × (earlier : List Frame) × (g : Grid) × (closed ≡ earlier ++ f ∷ [])
    × All (λ e. has_rtp rtp e ≡ false) earlier
    × (f.rtp ≡ some rtp)
    × (grid_of f cols rows ≡ some g)
    × (p ≡ encoded base64 rtp g)

-- The frames that are read: those of the rounds that begin before the deadline, up to the end of the
-- stream, and up to the first frame that has the timestamp or a later one.
abbrev pub taken : (deadline rtp : ℕ) → List (Round Frame) → List Frame
taken deadline rtp [] = []
taken deadline rtp (r ∷ rs) =
    let rest = taken deadline rtp rs in
    if leb deadline r.now then [] else elim r.race [
      | ended ↦ []
      | frame f ↦
          f
          ∷ (elim f.rtp [ none ↦ rest | some t ↦ if t == rtp || rtp_after t rtp then [] else rest ])
    ]

taken_round :
    (deadline rtp t : ℕ) (x : Race Frame) (rs : List (Round Frame))
    → let (closed, result) = read_frame (has_rtp rtp) (is_past rtp) deadline rs in
      closed ++ handed result ≡ taken deadline rtp rs
      → let r : Round Frame = record { now = t; race = x } in
        let (closed, result) = read_frame (has_rtp rtp) (is_past rtp) deadline (r ∷ rs) in
        closed ++ handed result ≡ taken deadline rtp (r ∷ rs)
unfolding read_frame
taken_round deadline rtp t ended rs k = ground arith
taken_round deadline rtp t (frame f) rs k = elim (Bool-cases (leb deadline t)) [
  | inl e ↦ ground arith
  | inr e ↦ elim (Option-cases f.rtp) [ inl n ↦ ground arith | inr (u, n) ↦ ground arith ]
]

read_frame-taken :
    (deadline rtp : ℕ) (rs : List (Round Frame))
    → let (closed, result) = read_frame (has_rtp rtp) (is_past rtp) deadline rs in
      closed ++ handed result ≡ taken deadline rtp rs
unfolding read_frame
read_frame-taken deadline rtp [] = refl
read_frame-taken deadline rtp (r ∷ rs) =
    taken_round deadline rtp r.now r.race rs (read_frame-taken deadline rtp rs)

module _ (base64 : List ℕ → Str) (now rtp : ℕ) (cols rows : Option ℕ)
    (rs : List (Round Frame)) where
  pub record Answered (has_track : Bool) (closed : List Frame) (result : Reading ProbeGrid)
      : Type 0 where
    pub closes : closed ≡ (if has_track then taken (now + 2000) rtp rs else [])
    pub rest : List Frame
    pub split : frames rs ≡ closed ++ rest
    pub answer :
        (p : ProbeGrid) → result ≡ returned (some p) → IsGridOf base64 rtp cols rows closed p
    pub ends : any (λ r. leb (now + 2000) r.now) rs ≡ true → result ≢ waiting

  has_rtp_sound : (f : Frame) → has_rtp rtp f ≡ true → f.rtp ≡ some rtp
  has_rtp_sound f h = ground arith

  grid_answer :
      (f : Frame) {p : ProbeGrid}
      → encoded_if base64 rtp (grid_of f cols rows) ≡ some p
      → (g : Grid) × (grid_of f cols rows ≡ some g) × (p ≡ encoded base64 rtp g)
  grid_answer f e = elim (Option-cases (grid_of f cols rows)) [
    | inl n ↦ absurd (cc (e, ap (encoded_if base64 rtp) n))
    | inr (g, n) ↦ (g, n, cc (e, ap (encoded_if base64 rtp) n))
  ]

  finish-Answered :
      (closed : List Frame) (result : Reading Frame)
      → Settled (has_rtp rtp) (is_past rtp) (now + probe_timeout) rs closed result
      → closed ++ handed result ≡ taken (now + probe_timeout) rtp rs
      → let (all, answer) = finish_probe base64 rtp cols rows (closed, result) in
        Answered true all answer
  unfolding finish_probe
  finish-Answered closed waiting s k = record {
    closes = sym (append_nil closed) ∙ k;
    rest = s.rest;
    split = s.split;
    answer = λ p e. cc;
    ends = λ h. absurd (s.ends h refl);
  }
  finish-Answered closed (returned none) s k = record {
    closes = sym (append_nil closed) ∙ k;
    rest = s.rest;
    split = s.split;
    answer = λ p e. cc;
    ends = λ h e. cc;
  }
  finish-Answered closed (returned (some f)) s k = record {
    closes = k;
    rest = s.rest;
    split = rw (append_assoc closed (f ∷ []) s.rest) s.split;
    answer = λ p e.
        let (g, made, named) = grid_answer f (cc e) in
        (f, closed, g, refl, s.refused, has_rtp_sound f s.accepted.0, made, named);
    ends = λ h e. cc;
  }

  -- Where there is a track, a probe closes the frame of every round that begins less than two seconds after
  -- the request, once and in order, up to the first that has the timestamp or a later one or to the end of the
  -- stream, and no further frame; without a track it closes none. If it answers with a grid, that is of the
  -- frame it closed last, which is the first with the timestamp; and it has answered once a round begins two
  -- seconds or more after the request.
  pub probe-Answered :
      (has_track : Bool)
      → let (closed, result) = probe base64 has_track now rtp cols rows rs in
        Answered has_track closed result
  unfolding probe
  probe-Answered true =
      finish-Answered _ _ (read_frame-Settled (has_rtp rtp) (is_past rtp) (now + probe_timeout) rs)
        (read_frame-taken (now + probe_timeout) rtp rs)
  probe-Answered false = record {
    closes = refl;
    rest = frames rs;
    split = refl;
    answer = λ p e. cc;
    ends = λ h e. cc;
  }

-- A mark tells the host the timestamp of the next frame, and closes it after.
pub mark_first :
    (now t : ℕ) (f : Frame) (rs : List (Round Frame))
    → t < now + 1000
    → mark true now (record { now = t; race = frame f } ∷ rs) ≡ (f ∷ [], returned (some f.rtp))
unfolding mark finish_mark read_frame
mark_first now t f rs h = ground arith

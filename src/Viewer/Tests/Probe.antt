-- ===== src/Viewer/Tests/Probe.antt =====
-- The properties of viewer/src/probe.ts at concrete timestamps, planes and frames.
use laptop_as_a_second_monit.Common.{
  ℕ, ◌+◌, ◌-◌, ◌*◌, ◌%◌, ◌≤◌, ◌<◌, ◌≡◌, ◌↔◌, true, List, [], ◌∷◌, arith, min,
}
use laptop_as_a_second_monit.Viewer.Probe.Rtp.{u32, rtp_after, rtp_after-add}
use laptop_as_a_second_monit.Viewer.Probe.Grid.{cell, cell_start}
use laptop_as_a_second_monit.Viewer.Probe.Grid.Tiling.{IsIn, pixel-IsIn}
use laptop_as_a_second_monit.Viewer.Probe.Grid.Bounds.{cell-Within}

rtp_after-add_example :
    (rtp_after ((4294967290 + 9) % u32) 4294967290 ≡ true) ↔ ((0 < 9) × (9 < 0x80000000))
rtp_after-add_example = rtp_after-add 4294967290 9 (omega arith)

pixel-IsIn_example :
    ((c r : ℕ)
      → (cell_start 2 5 c < cell_start 2 5 (c + 1)) × (cell_start 3 4 r < cell_start 3 4 (r + 1)))
    × ((c : ℕ) × (r : ℕ) × (c < 2)
        × (r < 3)
        × IsIn 2 5 c 4
        × IsIn 3 4 r 3
        × ((d s : ℕ) → IsIn 2 5 d 4 → IsIn 3 4 s 3 → (d ≡ c) × (s ≡ r)))
pixel-IsIn_example =
    pixel-IsIn 2 3 5 4 4 3 (omega arith) (omega arith) (omega arith) (omega arith) (omega arith)
      (omega arith)

abbrev plane : List ℕ
plane = 20 ∷ 30 ∷ 20 ∷ 25 ∷ []

cell-Within_example :
    (20 ≤ (cell plane 2 2 2 1 2 1 0).mean)
    × ((cell plane 2 2 2 1 2 1 0).mean ≤ 30)
    × ((cell plane 2 2 2 1 2 1 0).detail ≤ min 255 (4 * (30 - 20)))
cell-Within_example =
    cell-Within 20 30 plane 2 2 2 1 2 1 0
      (
        (omega arith, omega arith),
        (
          (omega arith, omega arith),
          ((omega arith, omega arith), ((omega arith, omega arith), tt)),
        ),
      )
      (omega arith) (omega arith) (omega arith) (omega arith) (omega arith) (omega arith)
      (omega arith)

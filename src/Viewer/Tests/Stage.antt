-- ===== src/Viewer/Tests/Stage.antt =====
-- The properties of viewer/src/stage.ts at concrete runs.
use laptop_as_a_second_monit.Common.{ℕ, ◌≡◌, refl, true, false, some, List, [], ◌∷◌, arith}
use laptop_as_a_second_monit.Viewer.Probe.Frames.{Round, frame, ended, drawn}
use laptop_as_a_second_monit.Viewer.Stage.State.{
  Stage, new_stage, show, appear, keep_awake, set_live, rest, update_note, on_grant,
  enter_fullscreen, ◌>>>◌,
}
use laptop_as_a_second_monit.Viewer.Stage.Run.{
  Action, called, happened, shows, hides, lives, presses_stats, changes_fullscreen, grants, call,
  react, step, run,
}
use laptop_as_a_second_monit.Viewer.Stage.Shown.{Shows, run-Shows}
use laptop_as_a_second_monit.Viewer.Stage.Lock.{Holds, run-Holds, hide-grant}
use laptop_as_a_second_monit.Viewer.Stage.Frames.{Frame, probe, Answered, probe-Answered}

-- A display is shown, gets its picture, fills the screen, and shows its statistics.
abbrev a_display : List Action
a_display =
    called (shows true)
    ∷ happened grants
    ∷ called (lives true)
    ∷ happened (changes_fullscreen true false)
    ∷ happened presses_stats
    ∷ []

run-Shows_example : Shows (run a_display (new_stage true)).0
run-Shows_example = run-Shows true a_display

abbrev shown_and_hidden : List Action
shown_and_hidden = called (shows false) ∷ happened grants ∷ called hides ∷ []

run-Holds_example : Holds (run shown_and_hidden (new_stage true)).0
unfolding run step call react on_grant enter_fullscreen show appear set_live rest update_note
    keep_awake ◌>>>◌
run-Holds_example = run-Holds true shown_and_hidden (λ e. refl, (λ e. cc, (λ e. refl, tt)))

-- A stage whose request for a lock has not been answered.
abbrev waiting_stage : Stage
waiting_stage = record (new_stage true) { shown = true; root_hidden = false; requests = 1 }

hide-grant_example :
    let t = (run (called hides ∷ happened grants ∷ []) waiting_stage).0 in
    (t.shown ≡ false) × (t.held ≡ 0 ∷ []) × (t.wake_lock ≡ some 0)
hide-grant_example = hide-grant waiting_stage refl refl (omega arith)

abbrev a_frame : ℕ → Frame
a_frame rtp = record {
  rtp = some rtp;
  rect = some (1, 1);
  picture = drawn (10 ∷ 20 ∷ 30 ∷ 255 ∷ []);
}

-- The frame of the probe is the second, and a round begins after the deadline.
abbrev rounds : List (Round Frame)
rounds =
    record { now = 5; race = frame (a_frame 100) }
    ∷ record { now = 20; race = frame (a_frame 101) }
    ∷ record { now = 3000; race = ended }
    ∷ []

probe-Answered_example :
    let (closed, result) = probe (λ bytes. bytes) true 0 101 (some 1) (some 1) rounds in
    Answered (λ bytes. bytes) 0 101 (some 1) (some 1) rounds true closed result
probe-Answered_example = probe-Answered (λ bytes. bytes) 0 101 (some 1) (some 1) rounds true

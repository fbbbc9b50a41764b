-- ===== src/Viewer/Page/Invariant/Screens.antt =====
-- The stage and the form exclude one another, whatever the page does.
use laptop_as_a_second_monit.Common.{ℕ, ◌≡◌, refl, Bool, true, false, Str, arith}
use laptop_as_a_second_monit.Viewer.Stage.State.{
  Stage, show, hide, appear, keep_awake, enter_fullscreen, set_live, wake, rest, update_note,
  detach, let_sleep, attach, status, error, toggle_stats, toggle_fullscreen, fullscreen_changed,
  on_grant, on_denial, on_release, ◌>>>◌, clear,
}
use laptop_as_a_second_monit.Viewer.Stage.Run.{
  Key, Event, presses_fullscreen, presses_stats, presses, visible, grants, react, key, act, click,
  becomes_visible, on_idle,
}

keep_awake_shown : (s : Stage) → (keep_awake s).0.shown ≡ s.shown
unfolding keep_awake
keep_awake_shown s = ground arith

let_sleep_shown : (s : Stage) → (let_sleep s).0.shown ≡ s.shown
unfolding let_sleep
let_sleep_shown s = ground arith

pub set_live_shown : (on : Bool) (s : Stage) → (set_live on s).shown ≡ s.shown
unfolding set_live wake rest update_note
set_live_shown on s = ground arith

pub show_shown : (fullscreen : Bool) (s : Stage) → (show fullscreen s).0.shown ≡ true
unfolding show appear enter_fullscreen set_live rest update_note ◌>>>◌
show_shown fullscreen s = ground (arith, keep_awake_shown (appear fullscreen s))

pub hide_shown : (s : Stage) → (hide s).0.shown ≡ false
unfolding hide set_live rest update_note detach status error ◌>>>◌
hide_shown s =
    ground (arith, let_sleep_shown (clear (detach (set_live false (record s { shown = false }))).0))

pub attach_shown : (stream : ℕ) (b : Bool) (s : Stage) → (attach stream b s).0.shown ≡ s.shown
unfolding attach detach ◌>>>◌
attach_shown stream b s = refl

stats_shown : (s : Stage) → (toggle_stats s).shown ≡ s.shown
unfolding toggle_stats wake
stats_shown s = refl

toggle_shown : (s : Stage) → (toggle_fullscreen s).0.shown ≡ s.shown
unfolding toggle_fullscreen enter_fullscreen
toggle_shown s = ground arith

act_shown : (k : Str) (s : Stage) → (act k s).0.shown ≡ s.shown
unfolding act ◌>>>◌
act_shown k s = ground (arith, toggle_shown s, stats_shown s)

key_shown : (k : Key) (s : Stage) → (key k s).0.shown ≡ s.shown
unfolding key
key_shown k s = ground (arith, act_shown k.key s)

-- Only the page shows and hides the stage.
pub react_shown : (e : Event) (s : Stage) → (react e s).0.shown ≡ s.shown
unfolding react wake rest click enter_fullscreen becomes_visible on_idle on_grant on_denial
    on_release fullscreen_changed update_note
react_shown presses_fullscreen s = toggle_shown s
react_shown presses_stats s = stats_shown s
react_shown (presses k) s = key_shown k s
react_shown visible s = ground (arith, keep_awake_shown s)
react_shown grants s = ground arith
react_shown e s = ground arith

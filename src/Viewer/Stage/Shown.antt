-- ===== src/Viewer/Stage/Shown.antt =====
-- What the elements of the stage show, in any run.
use laptop_as_a_second_monit.Common.{
  ◌≡◌, Bool, true, false, not, List, [], ◌∷◌, arith, Str, Bool-cases, inl, inr,
}
use laptop_as_a_second_monit.Viewer.Stage.State.{
  Stage, new_stage, wants_note, is_empty, wake, rest, set_live, update_note, status, error, attach,
  detach, show, appear, hide, keep_awake, let_sleep, on_grant, on_denial, on_release, toggle_stats,
  enter_fullscreen, toggle_fullscreen, fullscreen_changed, ◌>>>◌, clear,
}
use laptop_as_a_second_monit.Viewer.Stage.Run.{
  Key, Call, Event, Action, called, happened, call, react, shows, lives, hides, detaches, attaches,
  tells, fails, moves, leaves, presses_fullscreen, presses_stats, presses_disconnect, presses_play,
  clicks, presses, plays, refuses_play, visible, idles, grants, denies, changes_fullscreen,
  releases, key, act, click, becomes_visible, on_idle, step, run,
}

pub record Shows (s : Stage) : Type 0 where
  pub root : s.root_hidden ≡ not s.shown
  pub picture : s.class_live ≡ s.live
  pub idle : s.class_idle ≡ true → s.live ≡ true
  pub timer : s.idle_timer ≡ true → (s.live ≡ true) × (s.class_idle ≡ false)
  pub note : s.note_hidden ≡ not (wants_note s)
  pub failure : s.error_hidden ≡ is_empty s.error_text
  pub stats : s.stats_pressed ≡ not s.dashboard_hidden

keep_awake-Shows : (s : Stage) → Shows s → Shows (keep_awake s).0
unfolding keep_awake
keep_awake-Shows s v = ground arith

let_sleep-Shows : (s : Stage) → Shows s → Shows (let_sleep s).0
unfolding let_sleep
let_sleep-Shows s v = ground arith

appear-Shows : (fullscreen : Bool) (s : Stage) → Shows s → Shows (appear fullscreen s)
unfolding appear set_live rest update_note
appear-Shows fullscreen s v = ground arith

show-Shows : (fullscreen : Bool) (s : Stage) → Shows s → Shows (show fullscreen s).0
unfolding show enter_fullscreen ◌>>>◌
show-Shows fullscreen s v = elim (Bool-cases s.shown) [
  | inl e ↦ simp e v
  | inr e ↦ simp e (ground (arith, keep_awake-Shows _ (appear-Shows fullscreen s v)))
]

cleared-Shows :
    (s : Stage) → Shows s → Shows (clear (detach (set_live false (record s { shown = false }))).0)
unfolding detach set_live rest update_note status error
cleared-Shows s v = ground arith

hide-Shows : (s : Stage) → Shows s → Shows (hide s).0
unfolding hide ◌>>>◌
hide-Shows s v = elim (Bool-cases s.shown) [
  | inl e ↦ simp e (let_sleep-Shows _ (cleared-Shows s v))
  | inr e ↦ simp e v
]

toggle-Shows : (s : Stage) → Shows s → Shows (toggle_fullscreen s).0
unfolding toggle_fullscreen enter_fullscreen
toggle-Shows s v = ground arith

stats-Shows : (s : Stage) → Shows s → Shows (toggle_stats s)
unfolding toggle_stats wake
stats-Shows s v = ground arith

act-Shows : (k : Str) (s : Stage) → Shows s → Shows (act k s).0
unfolding act ◌>>>◌
act-Shows k s v = ground (arith, toggle-Shows s v, stats-Shows s v)

key-Shows : (k : Key) (s : Stage) → Shows s → Shows (key k s).0
unfolding key
key-Shows k s v = ground (arith, act-Shows k.key s v)

call-Shows : (c : Call) (s : Stage) → Shows s → Shows (call c s).0
unfolding call
call-Shows (shows fullscreen) s v = show-Shows fullscreen s v
call-Shows (lives on) s v = unfold set_live wake rest update_note in ground arith
call-Shows hides s v = hide-Shows s v
call-Shows detaches s v = unfold detach in ground arith
call-Shows (attaches stream has_callback) s v = unfold attach detach ◌>>>◌ in ground arith
call-Shows (tells text) s v = unfold status in ground arith
call-Shows (fails text) s v = unfold error in ground arith

react-Shows : (e : Event) (s : Stage) → Shows s → Shows (react e s).0
unfolding react
react-Shows moves s v = unfold wake in ground arith
react-Shows leaves s v = unfold rest in ground arith
react-Shows presses_fullscreen s v = toggle-Shows s v
react-Shows presses_stats s v = stats-Shows s v
react-Shows presses_disconnect s v = v
react-Shows presses_play s v = v
react-Shows (clicks on_control) s v = unfold click enter_fullscreen in ground arith
react-Shows (presses k) s v = key-Shows k s v
react-Shows plays s v = ground arith
react-Shows refuses_play s v = ground arith
react-Shows visible s v = unfold becomes_visible in ground (arith, keep_awake-Shows s v)
react-Shows idles s v = unfold on_idle in ground arith
react-Shows grants s v = unfold on_grant in ground arith
react-Shows denies s v = unfold on_denial in ground arith
react-Shows (changes_fullscreen on other) s v =
    unfold fullscreen_changed wake update_note in ground arith
react-Shows (releases i) s v = unfold on_release in ground arith

step-Shows : (a : Action) (s : Stage) → Shows s → Shows (step a s).0
unfolding step
step-Shows (called c) s v = call-Shows c s v
step-Shows (happened e) s v = react-Shows e s v

new_stage-Shows : (can_lock : Bool) → Shows (new_stage can_lock)
new_stage-Shows can_lock = ground arith

run_from-Shows : (es : List Action) (s : Stage) → Shows s → Shows (run es s).0
unfolding run ◌>>>◌
run_from-Shows [] s v = v
run_from-Shows (e ∷ es) s v = run_from-Shows es (step e s).0 (step-Shows e s v)

-- After any sequence of calls and events, the stage is visible exactly while it is shown; the cursor and
-- the toolbar are hidden, or will be, only while a picture is live; the hint to click is there exactly
-- while a live picture that should fill the screen has not done so; an error is visible exactly if there
-- is one; and the button of the statistics agrees with their panel.
pub run-Shows : (can_lock : Bool) (es : List Action) → Shows (run es (new_stage can_lock)).0
run-Shows can_lock es = run_from-Shows es (new_stage can_lock) (new_stage-Shows can_lock)

-- ===== src/Viewer/Stage/Lock.antt =====
-- The screen lock of viewer/src/stage.ts: `keepAwake` and what `hide` does with it.
use laptop_as_a_second_monit.Common.{
  ℕ, ◌≡◌, ◌≢◌, ◌<◌, refl, Bool, true, false, Option, none, some, List, [], ◌∷◌, arith, Str,
  Bool-cases, Option-cases, inl, inr,
}
use laptop_as_a_second_monit.Viewer.Stage.State.{
  Stage, new_stage, wake, rest, set_live, update_note, status, error, attach, detach, show, appear,
  hide, keep_awake, let_sleep, on_grant, on_denial, on_release, toggle_stats, enter_fullscreen,
  toggle_fullscreen, fullscreen_changed, ◌>>>◌, clear, without,
}
use laptop_as_a_second_monit.Viewer.Stage.Run.{
  Key, Call, Event, Action, called, happened, call, react, shows, lives, hides, detaches, attaches,
  tells, fails, moves, leaves, presses_fullscreen, presses_stats, presses_disconnect, presses_play,
  clicks, presses, plays, refuses_play, visible, idles, grants, denies, changes_fullscreen,
  releases, key, act, click, becomes_visible, on_idle, step, run,
}

abbrev pub listed : Option ℕ → List ℕ
listed none = []
listed (some i) = i ∷ []

-- The locks that are held are the one that the stage knows, and a hidden stage has none and waits for
-- none; a stage that waits has none yet.
pub record Holds (s : Stage) : Type 0 where
  pub known : s.held ≡ listed s.wake_lock
  pub hidden : s.shown ≡ false → (s.wake_lock ≡ none) × (s.requests ≡ 0)
  pub waiting : s.requests ≢ 0 → (s.wake_lock ≡ none) × (s.requests ≡ 1)

abbrev pub is_answer : Event → Bool
is_answer grants = true
is_answer denies = true
is_answer _ = false

abbrev pub is_settled : Action → Bool
is_settled (called c) = false
is_settled (happened e) = is_answer e

-- Every request for a lock is answered before anything else happens.
abbrev pub Prompt : List Action → Stage → Type 0
Prompt [] s = Unit
Prompt (e ∷ es) s = (is_settled e ≡ false → s.requests ≡ 0) × Prompt es (step e s).0

keep_awake-Holds : (s : Stage) → s.shown ≡ true → s.requests ≡ 0 → Holds s → Holds (keep_awake s).0
unfolding keep_awake
keep_awake-Holds s e q h = ground arith

-- A step that leaves alone the lock and whether the stage is shown.
abbrev pub SameLock : Stage → Stage → Type 0
SameLock s t =
    (t.shown ≡ s.shown)
    × (t.wake_lock ≡ s.wake_lock)
    × (t.held ≡ s.held)
    × (t.requests ≡ s.requests)

Holds-same : (s t : Stage) → SameLock s t → Holds s → Holds t
Holds-same s t e h = ground arith

set_live_same : (on : Bool) (s : Stage) → SameLock s (set_live on s)
unfolding set_live wake rest update_note
set_live_same on s = ground arith

detach_same : (s : Stage) → SameLock s (detach s).0
unfolding detach
detach_same s = (refl, refl, refl, refl)

clear_same : (s : Stage) → SameLock s (clear s)
unfolding status error
clear_same s = (refl, refl, refl, refl)

stats_same : (s : Stage) → SameLock s (toggle_stats s)
unfolding toggle_stats wake
stats_same s = (refl, refl, refl, refl)

toggle_same : (s : Stage) → SameLock s (toggle_fullscreen s).0
unfolding toggle_fullscreen enter_fullscreen
toggle_same s = ground arith

act_same : (k : Str) (s : Stage) → SameLock s (act k s).0
unfolding act ◌>>>◌
act_same k s = ground (arith, toggle_same s, stats_same s)

key_same : (k : Key) (s : Stage) → SameLock s (key k s).0
unfolding key
key_same k s = ground (arith, act_same k.key s)

appear_lock :
    (fullscreen : Bool) (s : Stage)
    → let t = appear fullscreen s in
      (t.shown ≡ true) × (t.wake_lock ≡ s.wake_lock) × (t.held ≡ s.held) × (t.requests ≡ s.requests)
unfolding appear set_live rest update_note
appear_lock fullscreen s = (refl, refl, refl, refl)

-- `show` asks for a lock, since a hidden stage has none.
show-Holds :
    (fullscreen : Bool) (s : Stage) → s.requests ≡ 0 → Holds s → Holds (show fullscreen s).0
unfolding show enter_fullscreen ◌>>>◌
show-Holds fullscreen s q h = elim (Bool-cases s.shown) [
  | inl e ↦ simp e h
  | inr e ↦
      let (shown, lock, held, requests) = appear_lock fullscreen s in
      let kept : Holds (appear fullscreen s) = ground arith in
      simp e (ground (arith, keep_awake-Holds (appear fullscreen s) shown (ground arith) kept))
]

without_self : (i : ℕ) → without i (i ∷ []) ≡ []
without_self i = ground arith

-- What `hide` does before it lets the lock go.
abbrev concealed : Stage → Stage
concealed s = clear (detach (set_live false (record s { shown = false }))).0

concealed_lock :
    (s : Stage)
    → let t = concealed s in
      (t.shown ≡ false)
      × (t.wake_lock ≡ s.wake_lock)
      × (t.held ≡ s.held)
      × (t.requests ≡ s.requests)
unfolding detach set_live rest update_note status error
concealed_lock s = (refl, refl, refl, refl)

let_sleep-Holds : (s : Stage) → s.held ≡ listed s.wake_lock → s.requests ≡ 0 → Holds (let_sleep s).0
unfolding let_sleep
let_sleep-Holds s k q = elim (Option-cases s.wake_lock) [
  | inl e ↦ ground arith
  | inr (i, e) ↦ ground (arith, without_self i)
]

hide-Holds : (s : Stage) → s.requests ≡ 0 → Holds s → Holds (hide s).0
unfolding hide ◌>>>◌
hide-Holds s q h = elim (Bool-cases s.shown) [
  | inr e ↦ simp e h
  | inl e ↦
      let (shown, lock, held, requests) = concealed_lock s in
      simp e (let_sleep-Holds (concealed s) (ground (arith, h.known)) (ground arith))
]

grant-Holds : (s : Stage) → Holds s → Holds (on_grant s)
unfolding on_grant
grant-Holds s h = ground arith

denial-Holds : (s : Stage) → Holds s → Holds (on_denial s)
unfolding on_denial
denial-Holds s h = ground arith

release-Holds : (i : ℕ) (s : Stage) → Holds s → Holds (on_release i s)
unfolding on_release
release-Holds i s h = elim (Option-cases s.wake_lock) [
  | inl e ↦ ground arith
  | inr (j, e) ↦ ground arith
]

call-Holds : (c : Call) (s : Stage) → s.requests ≡ 0 → Holds s → Holds (call c s).0
unfolding call
call-Holds (shows fullscreen) s q h = show-Holds fullscreen s q h
call-Holds (lives on) s q h = Holds-same s _ (set_live_same on s) h
call-Holds hides s q h = hide-Holds s q h
call-Holds detaches s q h = Holds-same s _ (detach_same s) h
call-Holds (attaches stream has_callback) s q h = unfold attach detach ◌>>>◌ in ground arith
call-Holds (tells text) s q h = unfold status in ground arith
call-Holds (fails text) s q h = unfold error in ground arith

react-Holds :
    (e : Event) (s : Stage) → (is_answer e ≡ false → s.requests ≡ 0) → Holds s → Holds (react e s).0
unfolding react
react-Holds moves s q h = unfold wake in ground arith
react-Holds leaves s q h = unfold rest in ground arith
react-Holds presses_fullscreen s q h = Holds-same s _ (toggle_same s) h
react-Holds presses_stats s q h = Holds-same s _ (stats_same s) h
react-Holds presses_disconnect s q h = h
react-Holds presses_play s q h = h
react-Holds (clicks on_control) s q h = unfold click enter_fullscreen in ground arith
react-Holds (presses k) s q h = Holds-same s _ (key_same k s) h
react-Holds plays s q h = ground arith
react-Holds refuses_play s q h = ground arith
react-Holds visible s q h = unfold becomes_visible in ground (arith, q refl, keep_awake-Holds s)
react-Holds idles s q h = unfold on_idle in ground arith
react-Holds grants s q h = grant-Holds s h
react-Holds denies s q h = denial-Holds s h
react-Holds (changes_fullscreen on other) s q h =
    unfold fullscreen_changed wake update_note in ground arith
react-Holds (releases i) s q h = release-Holds i s h

step-Holds :
    (a : Action) (s : Stage)
    → (is_settled a ≡ false → s.requests ≡ 0)
    → Holds s
    → Holds (step a s).0
unfolding step
step-Holds (called c) s q h = call-Holds c s (q refl) h
step-Holds (happened e) s q h = react-Holds e s q h

run_from-Holds : (es : List Action) (s : Stage) → Prompt es s → Holds s → Holds (run es s).0
unfolding run ◌>>>◌
run_from-Holds [] s p h = h
run_from-Holds (e ∷ es) s (q, p) h = run_from-Holds es (step e s).0 p (step-Holds e s q h)

new_stage-Holds : (can_lock : Bool) → Holds (new_stage can_lock)
new_stage-Holds can_lock = ground arith

-- As long as every request for a screen lock is answered before anything else happens, the page never holds
-- more than one lock, the stage knows it, and while the stage is hidden there is none and none is asked for.
pub run-Holds :
    (can_lock : Bool) (es : List Action)
    → Prompt es (new_stage can_lock)
    → Holds (run es (new_stage can_lock)).0
run-Holds can_lock es p = run_from-Holds es (new_stage can_lock) p (new_stage-Holds can_lock)

-- Where the browser answers only after the stage was hidden, the screen lock that it grants is held on,
-- although nothing is shown: `hide` can let go only of a lock that it knows.
pub hide-grant :
    (s : Stage)
    → s.shown ≡ true
    → s.wake_lock ≡ none
    → 0 < s.requests
    → let t = (run (called hides ∷ happened grants ∷ []) s).0 in
      (t.shown ≡ false) × (t.held ≡ s.next_lock ∷ s.held) × (t.wake_lock ≡ some s.next_lock)
unfolding run step call react hide let_sleep on_grant detach set_live rest update_note status error
    ◌>>>◌
hide-grant s shown lock waits = ground arith

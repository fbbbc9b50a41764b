-- ===== src/Viewer/Stage/State.antt =====
-- What a `Stage` of viewer/src/stage.ts and its elements keep, and one function for each method. A step
-- returns the new stage and what it asks of the browser and of the page, in order.
unfoldable pub use laptop_as_a_second_monit.Common.{◌>>>◌, emit, stay}
use laptop_as_a_second_monit.Common.{
  ℕ, zero, suc, ◌+◌, ◌-◌, Bool, true, false, ◌&&◌, ◌||◌, not, Option, none, some, List, [], ◌∷◌,
  Str, codes, filter, ◌==◌, if◌then◌else◌, Steps,
}

-- `is_full` is whether the document's fullscreen element is the stage, `other_full` whether it is
-- another; `idle_timer` whether the timer waits; `frame_callback` whether one was asked for; `video` is
-- the stream that is shown. A screen lock is a number: `wake_lock` is the one the stage knows, `held`
-- are all that the browser has granted and not let go, `requests` the requests that it has not answered,
-- `next_lock` the next one's name.
pub record Stage : Type 0 where
  pub shown : Bool
  pub live : Bool
  pub want_fullscreen : Bool
  pub ever_fullscreen : Bool
  pub is_full : Bool
  pub other_full : Bool
  pub root_hidden : Bool
  pub class_live : Bool
  pub class_idle : Bool
  pub idle_timer : Bool
  pub frame_callback : Bool
  pub video : Option ℕ
  pub status_text : Str
  pub error_text : Str
  pub error_hidden : Bool
  pub play_hidden : Bool
  pub note_text : Str
  pub note_hidden : Bool
  pub fullscreen_text : Str
  pub dashboard_hidden : Bool
  pub stats_pressed : Bool
  pub can_lock : Bool
  pub wake_lock : Option ℕ
  pub held : List ℕ
  pub requests : ℕ
  pub next_lock : ℕ

pub data Effect : Type 0 where
  request_fullscreen exit_fullscreen play cancel_frame request_lock prevent_default : Effect
  disconnect read_mark : Effect
  request_frame show_stream release_lock : ℕ → Effect

abbrev pub Outcome : Type 0
Outcome = Steps Stage Effect

-- The elements as the page declares them, and the fields of the constructor.
abbrev pub new_stage : (can_lock : Bool) → Stage
new_stage can_lock = record {
  shown = false;
  live = false;
  want_fullscreen = false;
  ever_fullscreen = false;
  is_full = false;
  other_full = false;
  root_hidden = true;
  class_live = false;
  class_idle = false;
  idle_timer = false;
  frame_callback = false;
  video = none;
  status_text = [];
  error_text = [];
  error_hidden = true;
  play_hidden = true;
  note_text = [];
  note_hidden = true;
  fullscreen_text = codes "Fullscreen";
  dashboard_hidden = true;
  stats_pressed = false;
  can_lock = can_lock;
  wake_lock = none;
  held = [];
  requests = 0;
  next_lock = 0;
}

abbrev pub wants_note : Stage → Bool
wants_note s = s.live && s.want_fullscreen && not s.ever_fullscreen && not s.is_full

unfoldable pub update_note : Stage → Stage
update_note s = record s {
  note_text = if wants_note s then codes "Click the picture to fill the screen" else [];
  note_hidden = not (wants_note s);
}

-- Cursor and toolbar come back, and a timer waits to hide them if a picture is showing.
unfoldable pub wake : Stage → Stage
wake s = record s { class_idle = false; idle_timer = s.live }

unfoldable pub rest : Stage → Stage
rest s = record s { class_idle = s.live; idle_timer = false }

unfoldable pub set_live : Bool → Stage → Stage
set_live on s =
    let t = record s { live = on; class_live = on } in update_note (if on then wake t else rest t)

unfoldable pub status : Str → Stage → Stage
status text s = record s { status_text = text }

abbrev pub is_empty : Str → Bool
is_empty [] = true
is_empty (_ ∷ _) = false

unfoldable pub error : Str → Stage → Stage
error text s = record s { error_text = text; error_hidden = is_empty text }

unfoldable pub detach : Stage → Outcome
detach s = (
  record s { frame_callback = false; video = none; play_hidden = true },
  if s.frame_callback then cancel_frame ∷ [] else [],
)

-- `has_callback` is whether the browser has `requestVideoFrameCallback`.
unfoldable pub attach : (stream : ℕ) → (has_callback : Bool) → Stage → Outcome
attach stream has_callback s = detach s >>> (λ t. (
  record t { video = some stream; frame_callback = has_callback },
  show_stream stream ∷ (if has_callback then request_frame stream ∷ play ∷ [] else play ∷ []),
))

-- `keepAwake`, up to the answer of the browser.
unfoldable pub keep_awake : Stage → Outcome
keep_awake s = elim s.wake_lock [
  | some lock ↦ (s, [])
  | none ↦
      if s.can_lock then (record s { requests = s.requests + 1 }, request_lock ∷ []) else (s, [])
]

-- The rest of `keepAwake`: a request is granted.
unfoldable pub on_grant : Stage → Stage
on_grant s = elim s.requests [
  | zero ↦ s
  | suc n ↦ record s {
    requests = n;
    held = s.next_lock ∷ s.held;
    wake_lock = some s.next_lock;
    next_lock = s.next_lock + 1;
  }
]

unfoldable pub on_denial : Stage → Stage
on_denial s = record s { requests = s.requests - 1 }

abbrev pub without : ℕ → List ℕ → List ℕ
without i = filter (λ j. not (j == i))

abbrev pub is_lock : ℕ → Option ℕ → Bool
is_lock i none = false
is_lock i (some j) = j == i

-- The browser lets a lock go, and the listener of `release` runs.
unfoldable pub on_release : ℕ → Stage → Stage
on_release i s = record s {
  held = without i s.held;
  wake_lock = if is_lock i s.wake_lock then none else s.wake_lock;
}

-- `void this.wakeLock?.release(); this.wakeLock = undefined`
unfoldable pub let_sleep : Stage → Outcome
let_sleep s = elim s.wake_lock [
  | none ↦ (s, [])
  | some lock ↦ (record s { held = without lock s.held; wake_lock = none }, release_lock lock ∷ [])
]

unfoldable pub enter_fullscreen : Stage → Outcome
enter_fullscreen s = (s, if s.is_full then [] else request_fullscreen ∷ [])

unfoldable pub toggle_fullscreen : Stage → Outcome
toggle_fullscreen s = if s.is_full then (s, exit_fullscreen ∷ []) else enter_fullscreen s

unfoldable pub toggle_stats : Stage → Stage
toggle_stats s =
    wake
      (record s { dashboard_hidden = not s.dashboard_hidden; stats_pressed = s.dashboard_hidden })

-- The browser has changed the fullscreen element.
unfoldable pub fullscreen_changed : (on other : Bool) → Stage → Stage
fullscreen_changed on other s = wake (
    update_note (record s {
      is_full = on;
      other_full = other;
      ever_fullscreen = on || s.ever_fullscreen;
      fullscreen_text = if on then codes "Exit fullscreen" else codes "Fullscreen";
    }))

unfoldable pub appear : Bool → Stage → Stage
appear fullscreen s = set_live false (record s {
  shown = true;
  want_fullscreen = fullscreen;
  ever_fullscreen = false;
  root_hidden = false;
})

unfoldable pub show : Bool → Stage → Outcome
show fullscreen s =
    if s.shown
    then (s, [])
    else keep_awake (appear fullscreen s)
      >>> (λ t. if fullscreen then enter_fullscreen t else (t, []))

abbrev pub clear : Stage → Stage
clear s = record (error [] (status [] s)) {
  dashboard_hidden = true;
  stats_pressed = false;
  root_hidden = true;
}

unfoldable pub hide : Stage → Outcome
hide s =
    if not s.shown
    then (s, [])
    else (record s { shown = false }, if s.is_full then exit_fullscreen ∷ [] else [])
      >>> (λ t. detach (set_live false t))
      >>> (λ t. let_sleep (clear t))

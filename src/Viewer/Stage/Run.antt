-- ===== src/Viewer/Stage/Run.antt =====
-- The listeners of viewer/src/stage.ts (`key`, the clicks, the pointer), and any sequence of what the
-- page, the person and the browser bring.
use laptop_as_a_second_monit.Common.{
  ℕ, Bool, true, false, ◌&&◌, ◌||◌, not, Option, none, some, List, [], ◌∷◌, Str, codes, str_eq,
  if◌then◌else◌,
}
use laptop_as_a_second_monit.Viewer.Stage.State.{
  Stage, Outcome, ◌>>>◌, emit, prevent_default, play, disconnect, read_mark, wake, rest, set_live,
  status, error, attach, detach, show, hide, keep_awake, on_grant, on_denial, on_release,
  enter_fullscreen, toggle_fullscreen, toggle_stats, fullscreen_changed,
}

-- `tag` is the name of the element that the key was pressed in, if it has one.
pub record Key : Type 0 where
  pub key : Str
  pub ctrl : Bool
  pub meta : Bool
  pub alt : Bool
  pub tag : Option Str

abbrev pub is_typed_in : Option Str → Bool
is_typed_in none = false
is_typed_in (some t) =
    str_eq t (codes "INPUT") || str_eq t (codes "TEXTAREA") || str_eq t (codes "SELECT")

abbrev pub is_either : Str → Str → Str → Bool
is_either lower upper k = str_eq k lower || str_eq k upper

-- What a key means once it is the stage's.
unfoldable pub act : Str → Stage → Outcome
act k s =
    if is_either (codes "f") (codes "F") k
    then emit prevent_default s >>> toggle_fullscreen
    else if is_either (codes "s") (codes "S") k
    then (toggle_stats s, prevent_default ∷ [])
    else if is_either (codes "m") (codes "M") k && s.live
    then (s, prevent_default ∷ read_mark ∷ [])
    else (s, [])

unfoldable pub key : Key → Stage → Outcome
key e s =
    if not s.shown || e.ctrl || e.meta || e.alt
    then (s, [])
    else if is_typed_in e.tag
    then (s, [])
    else act e.key s

-- A click on the picture; `on_control` is one on a button, the toolbar or the dashboard.
unfoldable pub click : (on_control : Bool) → Stage → Outcome
click on_control s = if on_control || s.is_full || s.other_full then (s, []) else enter_fullscreen s

unfoldable pub becomes_visible : Stage → Outcome
becomes_visible s = if s.shown then keep_awake s else (s, [])

-- The idle timer is due.
unfoldable pub on_idle : Stage → Stage
on_idle s = if s.idle_timer then record s { class_idle = true; idle_timer = false } else s

-- What the page calls.
pub data Call : Type 0 where
  shows lives : Bool → Call
  hides detaches : Call
  attaches : (stream : ℕ) → (has_callback : Bool) → Call
  tells fails : Str → Call

-- What the person does and the browser brings.
pub data Event : Type 0 where
  moves leaves presses_fullscreen presses_stats presses_disconnect presses_play : Event
  clicks : (on_control : Bool) → Event
  presses : Key → Event
  plays refuses_play visible idles grants denies : Event
  changes_fullscreen : (on other : Bool) → Event
  releases : ℕ → Event

unfoldable pub call : Call → Stage → Outcome
call (shows fullscreen) s = show fullscreen s
call (lives on) s = (set_live on s, [])
call hides s = hide s
call detaches s = detach s
call (attaches stream has_callback) s = attach stream has_callback s
call (tells text) s = (status text s, [])
call (fails text) s = (error text s, [])

unfoldable pub react : Event → Stage → Outcome
react moves s = (wake s, [])
react leaves s = (rest s, [])
react presses_fullscreen s = toggle_fullscreen s
react presses_stats s = (toggle_stats s, [])
react presses_disconnect s = (s, disconnect ∷ [])
react presses_play s = (s, play ∷ [])
react (clicks on_control) s = click on_control s
react (presses k) s = key k s
react plays s = (record s { play_hidden = true }, [])
react refuses_play s = (record s { play_hidden = false }, [])
react visible s = becomes_visible s
react idles s = (on_idle s, [])
react grants s = (on_grant s, [])
react denies s = (on_denial s, [])
react (changes_fullscreen on other) s = (fullscreen_changed on other s, [])
react (releases i) s = (on_release i s, [])

pub data Action : Type 0 where
  called : Call → Action
  happened : Event → Action

unfoldable pub step : Action → Stage → Outcome
step (called c) s = call c s
step (happened e) s = react e s

unfoldable pub run : List Action → Stage → Outcome
run [] s = (s, [])
run (a ∷ later) s = step a s >>> run later

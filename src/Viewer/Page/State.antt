-- ===== src/Viewer/Page/State.antt =====
-- What the page of viewer/src/main.ts keeps: its elements, the stage, the sessions that it has started and
-- what it has stored; and its small functions. A step returns the new page and what it does, in order.
unfoldable pub use laptop_as_a_second_monit.Common.{◌>>>◌, emit, stay}
use laptop_as_a_second_monit.Common.{
  ℕ, Bool, true, false, ◌&&◌, not, Option, none, some, [], ◌∷◌, Str, codes, map, ◌==◌,
  if◌then◌else◌, Steps,
}
use laptop_as_a_second_monit.Protocol.Json.{Json}
use laptop_as_a_second_monit.Viewer.Session.State.{Session, Effect as SessionEffect}
use laptop_as_a_second_monit.Viewer.Session.State.Methods.{stop as stop_session}
use laptop_as_a_second_monit.Viewer.Stage.State.{
  Stage, Effect as StageEffect, Outcome as StageOutcome, hide, show,
}
use laptop_as_a_second_monit.Viewer.Preferences.{Url}
use laptop_as_a_second_monit.Viewer.Preferences.Stored.{Stores, auto_fullscreen}

-- The session that a reload resumes.
pub record Saved : Type 0 where
  pub server : Str
  pub room : Str
  pub token : Str

-- What the page uses of its browser: the parser of addresses (`none` where it throws), percent-coding,
-- `JSON.parse`, `JSON.stringify` of what is saved, the table behind `toUpperCase`, the address of the
-- page, and whether a video has `requestVideoFrameCallback`.
pub record Browser : Type 0 where
  pub parse_url : Str → Option Url
  pub encode : Str → Str
  pub parse_json : Str → Option Json
  pub print_saved : Saved → Str
  pub upper : ℕ → Str
  pub pathname : Str
  pub is_https : Bool
  pub has_callback : Bool

-- `session` names the current one of `sessions`; a session that failed to start is in neither.
-- `stored` is the item of the session storage, and `none` where that throws.
pub record Page : Type 0 where
  pub server : Str
  pub code : Str
  pub code_invalid : Bool
  pub message : Str
  pub message_error : Bool
  pub connect_disabled : Bool
  pub cancel_hidden : Bool
  pub pairing_hidden : Bool
  pub fullscreen_checked : Bool
  pub test_pairing : Str
  pub on_stage : Bool
  pub last_status : Str
  pub last_error : Str
  pub saved : Option Saved
  pub stored : Option (Option Str)
  pub stores : Stores
  pub session : Option ℕ
  pub sessions : ℕ → Option Session
  pub next_session : ℕ
  pub pattern_timer : Bool
  pub stage : Stage

pub data Effect : Type 0 where
  from_session : ℕ → SessionEffect → Effect
  from_stage : StageEffect → Effect
  reset_dashboard select_code focus_code : Effect

abbrev pub Outcome : Type 0
Outcome = Steps Page Effect

abbrev pub is_empty : Str → Bool
is_empty [] = true
is_empty (_ ∷ _) = false

unfoldable pub say : Str → Bool → Page → Page
say text error p = record p { message = text; message_error = error && not (is_empty text) }

abbrev pub on_its_stage : (Stage → StageOutcome) → Page → Outcome
on_its_stage f p = let (t, es) = f p.stage in (record p { stage = t }, map from_stage es)

unfoldable pub show_stage : Page → Outcome
show_stage p =
    if p.on_stage
    then (p, [])
    else on_its_stage (show (auto_fullscreen p.stores))
        (record p { on_stage = true; pairing_hidden = true })

unfoldable pub show_pairing : Page → Outcome
show_pairing p =
    if p.on_stage
    then on_its_stage hide (record p { on_stage = false; pairing_hidden = false })
      >>> emit select_code
    else (p, [])

unfoldable pub set_busy : Bool → Page → Page
set_busy busy p = record p { connect_disabled = busy; cancel_hidden = not busy }

abbrev pub without_item : Option (Option Str) → Option (Option Str)
without_item none = none
without_item (some item) = some none

abbrev pub with_item : Str → Option (Option Str) → Option (Option Str)
with_item v none = none
with_item v (some item) = some (some v)

unfoldable pub forget : Page → Page
forget p = record p { saved = none; stored = without_item p.stored }

abbrev pub put : ℕ → Option Session → (ℕ → Option Session) → ℕ → Option Session
put i o f j = if j == i then o else f j

abbrev pub is_current : ℕ → Option ℕ → Bool
is_current i none = false
is_current i (some j) = j == i

-- `session?.stop()`. Nothing that a session does when it is stopped is for a handler of the page but the
-- report for the dashboard.
unfoldable pub stop_one : ℕ → Option Session → Page → Outcome
stop_one i none p = (p, [])
stop_one i (some s) p =
    let (t, es) = stop_session s in
    (record p { sessions = put i (some t) p.sessions }, map (from_session i) es)

unfoldable pub stop_named : Option ℕ → Page → Outcome
stop_named none p = (p, [])
stop_named (some i) p = stop_one i (p.sessions i) p

abbrev pub stop_current : Page → Outcome
stop_current p = stop_named p.session p

-- `stop(forgetSession)`
unfoldable pub stop : (forget_session : Bool) → Page → Outcome
stop forget_session p =
    stop_current (if forget_session then forget p else p)
    >>> (λ q. (record q { session = none; pattern_timer = false }, reset_dashboard ∷ []))
    >>> show_pairing
    >>> (λ q. (say (codes "Disconnected.") false (set_busy false q), []))

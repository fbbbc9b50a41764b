-- ===== src/Viewer/Page/Run.antt =====
-- What the person, the browser and the sessions bring to the page of viewer/src/main.ts, how the page
-- begins, and any sequence of events.
use laptop_as_a_second_monit.Common.{
  ℕ, Bool, true, false, ◌&&◌, Option, none, some, List, [], ◌∷◌, ◌++◌, Str, codes, take, length,
  ◌==◌, any, if◌then◌else◌, is_none, map,
}
use laptop_as_a_second_monit.Protocol.Message.{code_length}
use laptop_as_a_second_monit.Protocol.Pattern.{is_code}
use laptop_as_a_second_monit.Protocol.Code.{normalize_code}
use laptop_as_a_second_monit.Protocol.Hex.{Digest, room_for_secret}
use laptop_as_a_second_monit.Viewer.Session.State.{
  mark_seen, Session, Credentials, by_code, as_host, Input,
}
use laptop_as_a_second_monit.Viewer.Session.State.Methods.{note}
use laptop_as_a_second_monit.Viewer.Session.Direct.HostChannel.{send_to_host}
use laptop_as_a_second_monit.Viewer.Session.Run.{Event as SessionEvent, step as step_session}
use laptop_as_a_second_monit.Viewer.Stage.State.{Effect as StageEffect, disconnect}
use laptop_as_a_second_monit.Viewer.Stage.Run.{Event as StageEvent, react}
use laptop_as_a_second_monit.Viewer.Preferences.Stored.{remember_auto_fullscreen}
use laptop_as_a_second_monit.Viewer.Page.State.{
  Page, Browser, focus_code, Outcome, ◌>>>◌, say, on_its_stage, forget, put, stop, Effect,
  from_session,
}
use laptop_as_a_second_monit.Viewer.Page.Handlers.{remember, handle_all, start}

abbrev pub is_disconnect : StageEffect → Bool
is_disconnect disconnect = true
is_disconnect _ = false

-- Something happens on the stage; its button stops the session.
unfoldable pub on_stage_event : StageEvent → Page → Outcome
on_stage_event e p =
    on_its_stage (react e) p
    >>> (λ q. if any is_disconnect (react e p.stage).1 then stop true q else (q, []))

abbrev pub say_error : Option Str → Page → Page
say_error none p = p
say_error (some text) p = say text true p

abbrev pub code_hint : Str
code_hint = codes "Enter the 6-character code shown in Laptop Monitor."

unfoldable pub refuse_code : Page → Outcome
refuse_code p = (say code_hint true (record p { code_invalid = true }), focus_code ∷ [])

unfoldable pub toggle_fullscreen : Bool → Page → Page
toggle_fullscreen on p = record p {
  fullscreen_checked = on;
  stores = remember_auto_fullscreen on p.stores;
}

-- `session?.note(text)`
unfoldable pub note_in : Input → Str → ℕ → Option Session → Page → Page
note_in input text i none p = p
note_in input text i (some s) p = record p {
  sessions = put i (some (note input text s).0) p.sessions;
}

unfoldable pub note_with : Input → Str → Option ℕ → Page → Page
note_with input text none p = p
note_with input text (some i) p = note_in input text i (p.sessions i) p

unfoldable pub note_current : Input → Str → Page → Page
note_current input text p = note_with input text p.session p

-- `session?.sendToHost({ type: "mark", rtp })`
abbrev pub mark_effects : Option ℕ → ℕ → Option Session → List Effect
mark_effects rtp i none = []
mark_effects rtp i (some s) = map (from_session i) (send_to_host (mark_seen rtp) s).1

abbrev pub mark_with : Option ℕ → Option ℕ → Page → List Effect
mark_with rtp none p = []
mark_with rtp (some i) p = mark_effects rtp i (p.sessions i)

-- The action `mark` of the stage; `shown` is the text of the timestamp, or "unknown".
unfoldable pub on_mark : Input → (rtp : Option ℕ) → (shown : Str) → Page → Outcome
on_mark input rtp shown p = (
  note_current input (codes "picture marked as damaged (rtp " ++ (shown ++ codes ")")) p,
  mark_with rtp p.session p,
)

-- `notes` are the changes of the page's visibility and of the network; `draws` is the test pattern's
-- timer being set.
pub data Event : Type 0 where
  happens : ℕ → SessionEvent → Event
  stages : StageEvent → Event
  submits cancels leaves draws : Event
  types edits_server : Str → Event
  toggles : Bool → Event
  shares : (secret code : Str) → Event
  notes : Str → Event
  marks : (rtp : Option ℕ) → (shown : Str) → Event

module _ (o : Browser) where
  -- Something happens in the session `i`, and the page handles what it does.
  unfoldable pub on_session_with : Input → ℕ → SessionEvent → Option Session → Page → Outcome
  on_session_with input i e none p = (p, [])
  on_session_with input i e (some s) p =
      let (t, es) = step_session o.parse_json input e s in
      handle_all o i es (record p { sessions = put i (some t) p.sessions })

  unfoldable pub on_session : Input → ℕ → SessionEvent → Page → Outcome
  on_session input i e p = on_session_with input i e (p.sessions i) p

  -- `start` in a `try` whose `catch` shows the error.
  unfoldable pub try_start : Input → Credentials → (stream : Bool) → Page → Outcome
  try_start input credentials stream p =
      let ((q, es), error) = start o input credentials stream p in (say_error error q, es)

  -- The form is submitted.
  unfoldable pub submit : Input → Page → Outcome
  submit input p =
      let value = normalize_code o.upper p.code in
      let q = record p { code = value } in
      if is_code value
      then try_start input (by_code value) false (forget (remember o q.server q))
      else refuse_code q

  -- The field of the code is typed in; six characters are the whole code.
  unfoldable pub type_code : Input → Str → Page → Outcome
  type_code input typed p =
      let value = take code_length (normalize_code o.upper typed) in
      let q = record p { code = value; code_invalid = false } in
      if length value == code_length && is_none q.session then submit input q else (q, [])

  unfoldable pub edit_server : Str → Page → Page
  edit_server value p = remember o value (record p { server = value })

  -- `testHost`, with the secret and the code that it made up.
  unfoldable pub test_host : Digest → Input → (secret code : Str) → Page → Outcome
  test_host digest input secret code p =
      try_start input (as_host (room_for_secret digest secret) secret code) true
        (record p { test_pairing = codes "Pairing code: " ++ code })

  unfoldable pub step : Digest → Input → Event → Page → Outcome
  step digest input (happens i e) p = on_session input i e p
  step digest input (stages e) p = on_stage_event e p
  step digest input submits p = submit input p
  step digest input cancels p = stop true p
  step digest input leaves p = stop false p
  step digest input draws p = (record p { pattern_timer = true }, [])
  step digest input (types typed) p = type_code input typed p
  step digest input (edits_server value) p = (edit_server value p, [])
  step digest input (toggles on) p = (toggle_fullscreen on p, [])
  step digest input (shares secret code) p = test_host digest input secret code p
  step digest input (notes text) p = (note_current input text p, [])
  step digest input (marks rtp shown) p = on_mark input rtp shown p

  unfoldable pub run : Digest → List (Input × Event) → Page → Outcome
  run digest [] p = (p, [])
  run digest ((input, e) ∷ es) p = step digest input e p >>> run digest es

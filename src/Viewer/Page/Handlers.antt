-- ===== src/Viewer/Page/Handlers.antt =====
-- The handlers that the page of viewer/src/main.ts gives to a session, and `start`, which makes one.
use laptop_as_a_second_monit.Common.{
  ℕ, ◌+◌, Bool, true, false, ◌&&◌, ◌||◌, not, Option, none, some, List, [], ◌∷◌, ◌++◌, Str, codes,
  str_eq, if◌then◌else◌,
}
use laptop_as_a_second_monit.Viewer.Session.State.{
  Session, Credentials, Phase, pairing, connected, Input, Effect as SessionEffect, show_status,
  show_error, show_phase, video, paired, ended, thrown,
}
use laptop_as_a_second_monit.Viewer.Session.State.Methods.{is_host, new_session, same_phase}
use laptop_as_a_second_monit.Viewer.Session.Signals.{start as start_session}
use laptop_as_a_second_monit.Viewer.Stage.State.{status, error, attach, set_live}
use laptop_as_a_second_monit.Viewer.Preferences.{Url, is_safe}
use laptop_as_a_second_monit.Viewer.Preferences.Stored.{remember_server}
use laptop_as_a_second_monit.Viewer.Page.State.{
  Page, Browser, Saved, from_session, reset_dashboard, Outcome, ◌>>>◌, is_empty, say, on_its_stage,
  show_stage, set_busy, with_item, put, is_current, stop_current, stop,
}

abbrev pub is_viewer : Option Session → Bool
is_viewer none = false
is_viewer (some s) = not (is_host s.credentials)

-- `status`
unfoldable pub on_status : Str → Page → Page
on_status text p =
    let q = record p { last_status = text } in
    if p.on_stage then record q { stage = status text p.stage } else say text false q

-- `error`; on the pairing form, clearing an error brings the last status back.
unfoldable pub on_error : Str → Page → Page
on_error text p =
    let q = record p { last_error = text } in
    if p.on_stage
    then record q { stage = error text p.stage }
    else if not (is_empty text)
    then say text true q
    else if p.message_error
    then say p.last_status false q
    else q

-- `phase`, of a viewer's session.
unfoldable pub on_phase : Phase → Page → Outcome
on_phase f p =
    if same_phase f pairing
    then (p, [])
    else show_stage p
      >>> (λ q. (record q { stage = set_live (same_phase f connected) q.stage }, []))

abbrev pub ended_text : (reason : Str) → Page → Page
ended_text reason p =
    if str_eq reason (codes "kicked")
    then say (codes "Disconnected by the host. Enter the current code to reconnect.") false p
    else if is_empty p.last_error
    then p
    else say p.last_error true p

-- `ended`
unfoldable pub on_ended : (reason : Str) → Page → Outcome
on_ended reason p = stop (not (str_eq reason (codes "viewer-occupied"))) p >>> (λ q. (
  ended_text reason
      (if str_eq reason (codes "invalid-code") then record q { code_invalid = true } else q),
  [],
))

-- The error that a step of a session throws.
abbrev pub thrown_text : List SessionEffect → Option Str
thrown_text [] = none
thrown_text (thrown text ∷ es) = some text
thrown_text (_ ∷ es) = thrown_text es

-- `signalingUrl` accepts the server.
abbrev pub is_reachable : Option Url → Bool
is_reachable none = false
is_reachable (some u) = is_safe u

-- `new Session(…)`, made the current one.
unfoldable pub enter : Session → Page → Page
enter s p = record p {
  session = some p.next_session;
  sessions = put p.next_session (some s) p.sessions;
  next_session = p.next_session + 1;
}

-- A session that throws in `start` is dropped.
unfoldable pub drop_failed : ℕ → Page → Page
drop_failed i p = set_busy false (record p { session = none; sessions = put i none p.sessions })

unfoldable pub finish_launch : ℕ → Outcome → Option Str → Outcome × Option Str
finish_launch i (q, done) none = ((q, done), none)
finish_launch i (q, done) (some text) = ((drop_failed i q, done), some text)

abbrev pub fresh_form : Page → Page
fresh_form p = set_busy true (say [] false (record p { last_error = []; code_invalid = false }))

module _ (o : Browser) where
  abbrev pub remember : Str → Page → Page
  remember server p = record p {
    stores = remember_server o.parse_url o.encode o.pathname o.is_https server p.stores;
  }

  -- `paired`, of a viewer's session, with a room and a token.
  unfoldable pub keep_pairing : (room token : Str) → Page → Page
  keep_pairing room token p =
      let s : Saved = record { server = p.server; room = room; token = token } in
      remember p.server (record p { saved = some s; stored = with_item (o.print_saved s) p.stored })

  unfoldable pub on_paired : Option Str → Str → Page → Page
  on_paired none token p = p
  on_paired (some room) token p =
      if is_empty room || is_empty token then p else keep_pairing room token p

  -- What the page does with one thing that its session `i` does; the rest is for the browser and the
  -- dashboard.
  unfoldable pub handle : ℕ → SessionEffect → Page → Outcome
  handle i (show_status text) p = (if is_current i p.session then on_status text p else p, [])
  handle i (show_error text) p = (if is_current i p.session then on_error text p else p, [])
  handle i (show_phase f) p =
      if is_current i p.session && is_viewer (p.sessions i) then on_phase f p else (p, [])
  handle i (video stream) p =
      if is_current i p.session then on_its_stage (attach stream o.has_callback) p else (p, [])
  handle i (paired room token) p =
      (if is_viewer (p.sessions i) then on_paired room token p else p, [])
  handle i (ended reason) p = if is_current i p.session then on_ended reason p else (p, [])
  handle i e p = (p, from_session i e ∷ [])

  unfoldable pub handle_all : ℕ → List SessionEffect → Page → Outcome
  handle_all i [] p = (p, [])
  handle_all i (e ∷ es) p = handle i e p >>> handle_all i es

  abbrev pub made : Input → Credentials → (stream : Bool) → Page → Session
  made input credentials stream p =
      new_session credentials (is_reachable (o.parse_url p.server)) stream input.now

  -- The first step of the session `i`, and the error that `start` throws.
  unfoldable pub launch : Input → ℕ → Session → Page → Outcome × Option Str
  launch input i s p =
      let (t, es) = start_session input s in
      finish_launch i (handle_all i es (record p { sessions = put i (some t) p.sessions }))
        (thrown_text es)

  -- `start(credentials, stream)`, with the error that it throws.
  unfoldable pub start : Input → Credentials → (stream : Bool) → Page → Outcome × Option Str
  start input credentials stream p =
      let (q, stopped) = stop_current p in
      let r = fresh_form q in
      let s = made input credentials stream r in
      let ((t, done), error) = launch input r.next_session s (enter s r) in
      ((t, stopped ++ reset_dashboard ∷ done), error)

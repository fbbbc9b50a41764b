-- ===== src/Viewer/Page/Boot.antt =====
-- How the page of viewer/src/main.ts begins: the remembered server, the session that a reload resumes, and
-- the code and the server of a link.
use laptop_as_a_second_monit.Common.{
  Bool, true, false, ◌&&◌, Option, none, some, [], Str, codes, if◌then◌else◌,
}
use laptop_as_a_second_monit.Protocol.Json.{Json, get, Members, text_of, members_of}
use laptop_as_a_second_monit.Protocol.Pattern.{is_code, is_room, is_token}
use laptop_as_a_second_monit.Protocol.Code.{normalize_code}
use laptop_as_a_second_monit.Viewer.Session.State.{by_code, by_token, Input}
use laptop_as_a_second_monit.Viewer.Stage.State.{new_stage}
use laptop_as_a_second_monit.Viewer.Preferences.{key, usable_signaling_url, saved_server, is_filled}
use laptop_as_a_second_monit.Viewer.Preferences.Stored.{Stores, auto_fullscreen, get_item}
use laptop_as_a_second_monit.Viewer.Page.State.{Page, Browser, Saved, Outcome, say}
use laptop_as_a_second_monit.Viewer.Page.Handlers.{remember, start}
use laptop_as_a_second_monit.Viewer.Page.Run.{try_start}

-- What the page finds: the address that it was built with, its cookies (`none` where they throw), the item
-- of the session storage, and the parameters of the link.
pub record Found : Type 0 where
  pub built_server : Str
  pub cookie : Option Str
  pub stored : Option (Option Str)
  pub stores : Stores
  pub can_lock : Bool
  pub link_code : Option Str
  pub link_server : Option Str

abbrev pub or_text : Str → Option Str → Str
or_text t none = t
or_text t (some s) = s

-- `import.meta.env.VITE_SIGNALING_URL || …`
unfoldable pub default_server : Str → Str
default_server built =
    if is_filled built
    then built
    else codes "https://browser-monitor-signaling.danielruoqiao.workers.dev"

abbrev pub saved_if : Str → Str → Str → Option Saved
saved_if server room token =
    if is_room room && is_token token
    then some (record { server = server; room = room; token = token })
    else none

-- The tests of a parsed item; a room or token that is no text does not pass.
unfoldable pub saved_of : Members → Option Saved
saved_of m = elim (text_of (get (codes "server") m)) [
  | none ↦ none
  | some server ↦ elim (text_of (get (codes "room") m)) [
    | none ↦ none
    | some room ↦ elim (text_of (get (codes "token") m)) [
      | none ↦ none
      | some token ↦ saved_if server room token
    ]
  ]
]

abbrev pub saved_of_json : Option Json → Option Saved
saved_of_json none = none
saved_of_json (some v) = elim (members_of v) [ none ↦ none | some m ↦ saved_of m ]

abbrev pub read_saved : (Str → Option Json) → Option (Option Str) → Option Saved
read_saved parse_json (some (some item)) = saved_of_json (parse_json item)
read_saved parse_json _ = none

abbrev pub say_gone : Option Str → Page → Page
say_gone none p = p
say_gone (some text) p =
    say (codes "The previous session could not resume. Enter the current code.") true p

module _ (o : Browser) where
  -- The page before its link is looked at.
  unfoldable pub new_page : (decode : Str → Option Str) → Found → Page
  new_page decode f = record {
    server =
        or_text (default_server f.built_server)
          (saved_server o.parse_url decode f.cookie (get_item key f.stores.items));
    code = [];
    code_invalid = false;
    message = [];
    message_error = false;
    connect_disabled = false;
    cancel_hidden = true;
    pairing_hidden = false;
    fullscreen_checked = auto_fullscreen f.stores;
    test_pairing = [];
    on_stage = false;
    last_status = [];
    last_error = [];
    saved = read_saved o.parse_json f.stored;
    stored = f.stored;
    stores = f.stores;
    session = none;
    sessions = λ i. none;
    next_session = 0;
    pattern_timer = false;
    stage = new_stage f.can_lock;
  }

  unfoldable pub take_code : Option Str → Page → Page
  take_code none p = p
  take_code (some typed) p = record p { code = normalize_code o.upper typed }

  -- A server of the link wins over the remembered one, and replaces it.
  unfoldable pub take_server : Option Str → Page → Page
  take_server none p = p
  take_server (some server) p = remember o server (record p { server = server })

  unfoldable pub resume : Input → Saved → Page → Outcome
  resume input s p =
      let q = record p {
        server = or_text p.server (usable_signaling_url o.parse_url (some s.server));
      } in
      let ((t, es), error) = start o input (by_token s.room s.token) false q in
      (say_gone error t, es)

  unfoldable pub begin : Input → Option Saved → Page → Outcome
  begin input none p =
      if is_code p.code then try_start o input (by_code p.code) false p else (p, [])
  begin input (some s) p = resume input s p

  unfoldable pub boot : (decode : Str → Option Str) → Input → Found → Outcome
  boot decode input f =
      let p = take_server f.link_server (take_code f.link_code (new_page decode f)) in
      begin input p.saved p

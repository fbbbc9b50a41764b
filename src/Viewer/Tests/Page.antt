-- ===== src/Viewer/Tests/Page.antt =====
-- The properties of viewer/src/main.ts and viewer/src/preferences.ts at concrete pages.
use laptop_as_a_second_monit.Common.{
  ℕ, ◌≡◌, All, refl, ap, sym, true, false, Option, none, some, [], ◌∷◌, Str, codes, str_eq, ◌==◌,
  ==_iff, Bool-cases, inl, inr, arith,
}
use laptop_as_a_second_monit.Protocol.Json.{Json}
use laptop_as_a_second_monit.Protocol.Message.{pair_error}
use laptop_as_a_second_monit.Protocol.Pattern.{repeats}
use laptop_as_a_second_monit.Viewer.Session.State.{Session, Input, by_code}
use laptop_as_a_second_monit.Viewer.Session.State.Methods.{new_session, stop as stop_session}
use laptop_as_a_second_monit.Viewer.Session.Signals.{error_text}
use laptop_as_a_second_monit.Viewer.Session.Run.{pairs, presents}
use laptop_as_a_second_monit.Viewer.Session.Rest.{stop-Rests}
use laptop_as_a_second_monit.Viewer.Stage.State.{new_stage}
use laptop_as_a_second_monit.Viewer.Preferences.{
  Url, usable_signaling_url, saved_server, split_on, cut, trim, trim_start, trim_end, set, value_of,
  add_part, add_parts, parse_cookies, or_stored, cookie_server,
}
use laptop_as_a_second_monit.Viewer.Preferences.Remembered.{IsBareOf, saved_server-IsBareOf}
use laptop_as_a_second_monit.Viewer.Page.State.{Page, Browser, put}
use laptop_as_a_second_monit.Viewer.Page.Handlers.{keep_pairing}
use laptop_as_a_second_monit.Viewer.Page.Run.{cancels, on_session}
use laptop_as_a_second_monit.Viewer.Page.Boot.{Found, boot}
use laptop_as_a_second_monit.Viewer.Page.Invariant.{Good}
use laptop_as_a_second_monit.Viewer.Page.Invariant.Sessions.{put-Good}
use laptop_as_a_second_monit.Viewer.Page.Stale.{IsSamePage, IsQuiet, on_session-stale}
use laptop_as_a_second_monit.Viewer.Page.Ended.{IsBack}
use laptop_as_a_second_monit.Viewer.Page.Refused.{on_session-IsRefused}
use laptop_as_a_second_monit.Viewer.Page.Resume.{boot-keep_pairing, Presents}
use laptop_as_a_second_monit.Viewer.Page.Resume.Handling.{saved_json}
use laptop_as_a_second_monit.Viewer.Page.Resume.Handling.{connections}

abbrev https_url : Str → Option Url
https_url v = some (record { protocol = codes "https:"; hostname = codes "example.org"; bare = v })

abbrev a_room : Str
a_room = codes "0123456789abcdef0123456789abcdef"

abbrev a_token : Str
a_token = codes "0123456789abcdef0123456789abcdef0123456789abcdef0123456789abcdef"

abbrev a_server : Str
a_server = codes "https://example.org/"

abbrev stored_json : Json
stored_json = saved_json (record { server = a_server; room = a_room; token = a_token })

-- A browser in which only one item is ever parsed.
abbrev a_browser : Browser
a_browser = record {
  parse_url = https_url;
  encode = λ s. s;
  parse_json = λ t. some stored_json;
  print_saved = λ s. codes "{}";
  upper = λ c. [];
  pathname = codes "/";
  is_https = true;
  has_callback = true;
}

abbrev at : ℕ → Input
at now = record {
  now = now;
  wall = now;
  local_sdp = none;
  remote_ok = true;
  accepts = λ c. true;
  code_hash = [];
}

abbrev nothing_found : Found
nothing_found = record {
  built_server = [];
  cookie = none;
  stored = some none;
  stores = record { cookies = none; items = none };
  can_lock = true;
  link_code = none;
  link_server = none;
}

-- The page while its session `0` checks a code.
abbrev pairing_session : Session
pairing_session = new_session (by_code (codes "ABCDEF")) true false 5

abbrev pairing_page : Page
pairing_page = record {
  server = a_server;
  code = codes "ABCDEF";
  code_invalid = false;
  message = [];
  message_error = false;
  connect_disabled = true;
  cancel_hidden = false;
  pairing_hidden = false;
  fullscreen_checked = true;
  test_pairing = [];
  on_stage = false;
  last_status = [];
  last_error = [];
  saved = none;
  stored = some (some (codes "old"));
  stores = record { cookies = none; items = none };
  session = some 0;
  sessions = put 0 (some pairing_session) (λ i. none);
  next_session = 1;
  pattern_timer = false;
  stage = new_stage true;
}

only_pairing : (i : ℕ) (s : Session) → pairing_page.sessions i ≡ some s → i ≡ 0
only_pairing i s h = elim (Bool-cases (i == 0)) [
  | inl e ↦ (==_iff i 0).0 e
  | inr e ↦ absurd (ground arith)
]

pairing_page-Good : Good pairing_page
pairing_page-Good = record {
  screen = record { stage = refl; form = refl };
  busy = record { waits = refl; cancels = refl };
  alone = record {
    others = λ i s h n. absurd (n (ap some (sym (only_pairing i s h))));
    fresh = λ i h. ground arith;
    known = λ i h. ground arith;
  };
}

-- The page after its session `0` was replaced by the session `1`.
abbrev second_page : Page
second_page = record pairing_page {
  session = some 1;
  sessions = put 1 (some pairing_session) (λ i. none);
  next_session = 2;
}

only_second : (i : ℕ) (s : Session) → second_page.sessions i ≡ some s → i ≡ 1
only_second i s h = elim (Bool-cases (i == 1)) [
  | inl e ↦ (==_iff i 1).0 e
  | inr e ↦ absurd (ground arith)
]

second_page-Good : Good second_page
second_page-Good = record {
  screen = record { stage = refl; form = refl };
  busy = record { waits = refl; cancels = refl };
  alone = record {
    others = λ i s h n. absurd (n (ap some (sym (only_second i s h))));
    fresh = λ i h. ground arith;
    known = λ i h. ground arith;
  };
}

abbrev replaced_page : Page
replaced_page = record second_page {
  sessions = put 0 (some (stop_session pairing_session).0) second_page.sessions;
}

replaced_page-Good : Good replaced_page
replaced_page-Good =
    put-Good 0 (stop_session pairing_session).0 second_page (omega arith)
      (λ n. (stop-Rests pairing_session).0) second_page-Good

on_session-stale_example :
    IsSamePage 0 replaced_page (on_session a_browser (at 9) 0 presents replaced_page).0
    × All (IsQuiet 0) (on_session a_browser (at 9) 0 presents replaced_page).1
on_session-stale_example =
    on_session-stale a_browser 0 (at 9) presents replaced_page replaced_page-Good
      (λ e. ground arith)

on_session-IsRefused_example :
    IsBack none
      (some none)
      true
      (error_text (codes "invalid-code"))
      (on_session a_browser
        (at 9)
        0
        (pairs 5 (some (pair_error (codes "invalid-code"))))
        pairing_page).0
unfolding str_eq
on_session-IsRefused_example =
    on_session-IsRefused a_browser 0 (codes "invalid-code") (at 9) pairing_session pairing_page
      pairing_page-Good refl refl refl refl refl

boot-keep_pairing_example :
    let f : Found = record nothing_found { stored = some (some (codes "{}")) } in
    let (q, es) = boot a_browser (λ s. some s) (at 0) f in
    (connections es ≡ (some a_room, none) ∷ [])
    × (q.session ≡ some 0)
    × ((s : Session) × (q.sessions 0 ≡ some s) × Presents a_room a_token s)
unfolding keep_pairing usable_signaling_url repeats str_eq
boot-keep_pairing_example =
    boot-keep_pairing a_browser (λ s. some s) (at 0)
      (record nothing_found { stored = some (some (codes "{}")) }) a_room a_token
      (some (codes "old")) pairing_page {url = a_server} refl refl refl refl refl refl refl

abbrev a_cookie : Option Str
a_cookie = some (codes "a=1; lm_signaling_url=https://example.org/ ")

saved_server-IsBareOf_example :
    (v : Str) × (or_stored none (cookie_server (λ s. some s) a_cookie) ≡ some v)
    × IsBareOf a_server (https_url v)
unfolding saved_server usable_signaling_url parse_cookies split_on add_parts add_part cut trim
    trim_start trim_end set value_of str_eq
saved_server-IsBareOf_example =
    saved_server-IsBareOf https_url (λ s. some s) a_cookie none a_server refl

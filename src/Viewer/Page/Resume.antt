-- ===== src/Viewer/Page/Resume.antt =====
-- A reload of the page of viewer/src/main.ts resumes the session that was paired.
pub mod Handling
use laptop_as_a_second_monit.Common.{
  ℕ, suc, ◌≡◌, refl, ap, ◌∙◌, sym, Bool, true, false, Option, none, some, List, [], ◌∷◌, ◌++◌, Str,
  codes, str_eq, map, arith, subst, append_assoc, Bool-cases, inl, inr,
}
use laptop_as_a_second_monit.Protocol.Json.{
  Json, get, member, no_members, object, string, text_of, members_of,
}
use laptop_as_a_second_monit.Protocol.Message.{auth_viewer}
use laptop_as_a_second_monit.Protocol.Pattern.{is_room, is_token, repeats}
use laptop_as_a_second_monit.Viewer.Session.State.{
  Session, by_token, Input, Effect as SessionEffect, connection_stats, show_phase, busy, connect,
  show_status, transmit,
}
use laptop_as_a_second_monit.Viewer.Session.State.Methods.{new_session, phase, is_truthy}
use laptop_as_a_second_monit.Viewer.Session.Signals.{
  start as start_session, rejoin, open_socket, on_open, open_one, open_current,
}
use laptop_as_a_second_monit.Viewer.Stage.State.{Effect as StageEffect, show}
use laptop_as_a_second_monit.Viewer.Preferences.Stored.{auto_fullscreen}
use laptop_as_a_second_monit.Viewer.Preferences.{usable_signaling_url}
use laptop_as_a_second_monit.Viewer.Page.State.{
  Page, Browser, Saved, Effect, Outcome, from_session, from_stage, reset_dashboard, select_code,
  focus_code, ◌>>>◌, show_stage, stop_named, stop_current, put, with_item, say, set_busy,
}
use laptop_as_a_second_monit.Viewer.Page.Handlers.{
  is_viewer, handle, handle_all, on_phase, on_status, keep_pairing, is_reachable, thrown_text, made,
  fresh_form, enter, finish_launch, launch, start,
}
use laptop_as_a_second_monit.Viewer.Page.Boot.{
  Found, saved_of, or_text, read_saved, new_page, take_code, take_server, say_gone, resume, begin,
  boot,
}
use laptop_as_a_second_monit.Viewer.Page.Resume.Handling.{
  saved_json, connections, saved_of_saved, hex_filled, resumed, Connected, first_handled,
  first_steps, resumed_viewer,
}

pub stop_nothing : (p : Page) → p.session ≡ none → stop_current p ≡ (p, [])
unfolding stop_named
stop_nothing p n = ap (λ s. stop_named s p) n

put_same : (i : ℕ) (t : Session) (f : ℕ → Option Session) → put i (some t) f i ≡ some t
put_same i t f = ground arith

viewer_put :
    (i : ℕ) (t : Session) (f : ℕ → Option Session) {room token : Str}
    → t.credentials ≡ by_token room token
    → is_viewer (put i (some t) f i) ≡ true
viewer_put i t f h = ground arith

-- The session that a page starts with a room and a token.
abbrev pub rejoined : Input → Str → Str → Session
rejoined input room token =
    (start_session input (new_session (by_token room token) true false input.now)).0

module _ (o : Browser) (input : Input) (room token : Str) where
  abbrev resumed_session : Session
  resumed_session = rejoined input room token

  launched :
      (reachable : Bool) (i : ℕ) (p : Page)
      → reachable ≡ true
      → is_truthy room ≡ true
      → is_truthy token ≡ true
      → p.session ≡ some i
      → let s = new_session (by_token room token) reachable false input.now in
        let q = launch o input i s p in
        Connected o i room (some resumed_session) (some i) q.0 × (q.1 ≡ none)
  unfolding launch finish_launch
  launched false i p r h k c = cc
  launched true i p r h k c =
      let t = (start_session input (new_session (by_token room token) true false input.now)).0 in
      let q = record p { sessions = put i (some t) p.sessions } in
      let v = viewer_put i t p.sessions (resumed_viewer input room token h k) in
      subst
        (λ es.
          let l = finish_launch i (handle_all o i es q) (thrown_text es) in
          Connected o i room (some t) (some i) l.0 × (l.1 ≡ none))
        (sym (resumed input room token h k))
        (let (a, b, d) = first_handled o i room q c v in (a, b, d ∙ put_same i t p.sessions), refl)

  -- A page without a session starts one with a token.
  started :
      (p : Page)
      → is_truthy room ≡ true
      → is_truthy token ≡ true
      → is_reachable (o.parse_url p.server) ≡ true
      → p.session ≡ none
      → let q = start o input (by_token room token) false p in
        Connected o p.next_session room (some resumed_session) (some p.next_session) q.0
        × (q.1 ≡ none)
  unfolding start say set_busy enter connections
  started p h k r n =
      subst
        (λ (x : Outcome).
          let f = fresh_form x.0 in
          let s = made o input (by_token room token) false f in
          let l = launch o input f.next_session s (enter s f) in
          Connected o p.next_session room (some resumed_session) (some p.next_session)
            (l.0.0, x.1 ++ reset_dashboard ∷ l.0.1)
          × (l.1 ≡ none))
        (sym (stop_nothing p n))
        (launched (is_reachable (o.parse_url p.server)) p.next_session _ r h k refl)

  resumes :
      (server : Str) (p : Page) {url : Str}
      → is_truthy room ≡ true
      → is_truthy token ≡ true
      → usable_signaling_url o.parse_url (some server) ≡ some url
      → is_reachable (o.parse_url url) ≡ true
      → p.session ≡ none
      → let s : Saved = record { server = server; room = room; token = token } in
        Connected o p.next_session room
          (some resumed_session)
          (some p.next_session)
          (resume o input s p)
  unfolding resume
  resumes server p {url} h k u r n =
      let q = record p {
        server = or_text p.server (usable_signaling_url o.parse_url (some server));
      } in
      let (c, e) = started q h k (rw u r) n in
      let left = (start o input (by_token room token) false q).0.0 in
      (
        c.0,
        ap (λ x. (say_gone x left).session) e ∙ c.1,
        ap (λ x. (say_gone x left).sessions p.next_session) e ∙ c.2,
      )

-- The page of a link or of none, before it starts a session.
fresh_page : Browser → (Str → Option Str) → Found → Page
fresh_page o decode f = take_server o f.link_server (take_code o f.link_code (new_page o decode f))

fresh_page_lem :
    (o : Browser) (decode : Str → Option Str) (f : Found)
    → let p = fresh_page o decode f in
      (p.saved ≡ read_saved o.parse_json f.stored) × (p.session ≡ none) × (p.next_session ≡ 0)
unfolding fresh_page take_server take_code new_page
fresh_page_lem o decode f = ground arith

abbrev paired_of : Str → Str → Page → Saved
paired_of room token p = record { server = p.server; room = room; token = token }

-- A session for a room that shows the token when its socket opens.
abbrev pub Presents : Str → Str → Session → Type 0
Presents room token s =
    (s.credentials ≡ by_token room token)
    × ((on_open 0 none s).1 ≡ transmit 0 (auth_viewer none (some token) none) ∷ [])

rejoined-Presents :
    (input : Input) (room token : Str)
    → is_truthy room ≡ true
    → is_truthy token ≡ true
    → Presents room token (rejoined input room token)
unfolding start_session rejoin open_socket phase ◌>>>◌ on_open open_one open_current
rejoined-Presents input room token h k = ground arith

module _ (o : Browser) (decode : Str → Option Str) (input : Input) (f : Found) where
  begins :
      (room token : Str) (server : Str) (p : Page) {url : Str}
      → p.saved ≡ some (record { server = server; room = room; token = token })
      → is_room room ≡ true
      → is_token token ≡ true
      → usable_signaling_url o.parse_url (some server) ≡ some url
      → is_reachable (o.parse_url url) ≡ true
      → p.session ≡ none
      → Connected o p.next_session room
          (some (rejoined input room token))
          (some p.next_session)
          (begin o input p.saved p)
  unfolding begin
  begins room token server p e h k u r n =
      subst
        (λ x.
          Connected o p.next_session room (some (rejoined input room token)) (some p.next_session)
            (begin o input x p))
        (sym e)
        (resumes o input room token server p (hex_filled _ 31 room h) (hex_filled _ 63 token k) u r
          n)

  -- Once a viewer's session is paired, a reload of the page in the same tab opens a socket for the same
  -- room and no other, and the session that it goes on with shows the same token when that opens. This supposes that the storage of
  -- the session works, that `JSON.parse` gives back what was written, and that the server's address is
  -- still accepted.
  pub boot-keep_pairing :
      (room token : Str) (item : Option Str) (p : Page) {url : Str}
      → is_room room ≡ true
      → is_token token ≡ true
      → o.parse_json (o.print_saved (paired_of room token p))
        ≡ some (saved_json (paired_of room token p))
      → p.stored ≡ some item
      → f.stored ≡ (keep_pairing o room token p).stored
      → usable_signaling_url o.parse_url (some p.server) ≡ some url
      → is_reachable (o.parse_url url) ≡ true
      → let (q, es) = boot o decode input f in
        (connections es ≡ (some room, none) ∷ [])
        × (q.session ≡ some 0)
        × ((s : Session) × (q.sessions 0 ≡ some s) × Presents room token s)
  unfolding boot fresh_page keep_pairing
  boot-keep_pairing room token item p h k law works found u r =
      let q = fresh_page o decode f in
      let (saved, idle, next) = fresh_page_lem o decode f in
      let kept : f.stored ≡ some (some (o.print_saved (paired_of room token p))) =
        found ∙ ap (with_item (o.print_saved (paired_of room token p))) works in
      let resumed' =
        saved
        ∙ (ap (read_saved o.parse_json) kept
            ∙ saved_of_saved o.parse_json _ (paired_of room token p) law h k) in
      let (c, d, e) = begins room token p.server q resumed' h k u r idle in
      (
        c,
        d ∙ ap some next,
        (
          rejoined input room token,
          ap (begin o input q.saved q).0.sessions (sym next) ∙ e,
          rejoined-Presents input room token (hex_filled _ 31 room h) (hex_filled _ 63 token k),
        ),
      )

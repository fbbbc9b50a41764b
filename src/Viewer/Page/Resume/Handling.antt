-- ===== src/Viewer/Page/Resume/Handling.antt =====
-- What the page does with the first steps of a session that resumes.
use laptop_as_a_second_monit.Common.{
  ℕ, suc, ◌≡◌, refl, ap, ◌∙◌, sym, Bool, true, false, Option, none, some, List, [], ◌∷◌, ◌++◌, Str,
  codes, str_eq, map, arith, subst, append_assoc, Bool-cases, inl, inr,
}
use laptop_as_a_second_monit.Protocol.Json.{
  Json, get, member, no_members, object, string, text_of, members_of,
}
use laptop_as_a_second_monit.Protocol.Pattern.{is_room, is_token, repeats}
use laptop_as_a_second_monit.Viewer.Session.State.{
  Session, by_token, Input, Effect as SessionEffect, connection_stats, show_phase, busy, connect,
  show_status,
}
use laptop_as_a_second_monit.Viewer.Session.State.Methods.{new_session, phase, is_truthy}
use laptop_as_a_second_monit.Viewer.Session.Signals.{start as start_session, rejoin, open_socket}
use laptop_as_a_second_monit.Viewer.Stage.State.{Effect as StageEffect, show}
use laptop_as_a_second_monit.Viewer.Preferences.Stored.{auto_fullscreen}
use laptop_as_a_second_monit.Viewer.Page.State.{
  Page, Browser, Saved, Effect, Outcome, from_session, from_stage, reset_dashboard, select_code,
  focus_code, ◌>>>◌, show_stage, say,
}
use laptop_as_a_second_monit.Viewer.Page.Handlers.{
  is_viewer, handle, handle_all, on_phase, on_status,
}
use laptop_as_a_second_monit.Viewer.Page.Boot.{saved_of, read_saved}

-- `JSON.stringify` of what is saved.
abbrev pub saved_json : Saved → Json
saved_json s = object (
    member (codes "server") (string s.server)
      (member (codes "room") (string s.room) (member (codes "token") (string s.token) no_members)))

-- The sockets that are opened: the session, the room and the ticket.
abbrev pub connection : SessionEffect → List (Option Str × Option Str)
connection (connect i room ticket) = (room, ticket) ∷ []
connection _ = []

unfoldable pub connections : List Effect → List (Option Str × Option Str)
connections [] = []
connections (from_session i e ∷ es) = connection e ++ connections es
connections (_ ∷ es) = connections es

-- What is saved passes the tests of a reload.
pub saved_of_saved :
    (parse_json : Str → Option Json) (item : Str) (s : Saved)
    → parse_json item ≡ some (saved_json s)
    → is_room s.room ≡ true
    → is_token s.token ≡ true
    → read_saved parse_json (some (some item)) ≡ some s
unfolding saved_of get text_of members_of str_eq
saved_of_saved parse_json item s e h k = rw e (ground arith)

pub hex_filled : (p : ℕ → Bool) (n : ℕ) (s : Str) → repeats p (suc n) s ≡ true → is_truthy s ≡ true
unfolding repeats
hex_filled p n [] h = ground arith
hex_filled p n (c ∷ s) h = refl

pub resumed :
    (input : Input) (room token : Str)
    → is_truthy room ≡ true
    → is_truthy token ≡ true
    → (start_session input (new_session (by_token room token) true false input.now)).1
      ≡ connection_stats true
        ∷ show_phase busy
        ∷ connect 0 (some room) none
        ∷ show_status (codes "Connecting to signaling…")
        ∷ []
unfolding start_session rejoin open_socket phase ◌>>>◌
resumed input room token h k = ground arith

connections-append :
    (es fs : List Effect) → connections (es ++ fs) ≡ connections es ++ connections fs
unfolding connections
connections-append [] fs = refl
connections-append (from_session i e ∷ es) fs =
    rw (append_assoc (connection e) (connections es) (connections fs))
      (ap (λ l. connection e ++ l) (connections-append es fs))
connections-append (from_stage e ∷ es) fs = connections-append es fs
connections-append (reset_dashboard ∷ es) fs = connections-append es fs
connections-append (select_code ∷ es) fs = connections-append es fs
connections-append (focus_code ∷ es) fs = connections-append es fs

connections-stage : (es : List StageEffect) → connections (map from_stage es) ≡ []
unfolding connections
connections-stage [] = refl
connections-stage (e ∷ es) = connections-stage es

show_stage_quiet :
    (p : Page)
    → let q = show_stage p in
      (connections q.1 ≡ []) × (q.0.session ≡ p.session) × (q.0.sessions ≡ p.sessions)
unfolding show_stage connections
show_stage_quiet p = elim (Bool-cases p.on_stage) [
  | inl e ↦ simp e (refl, refl, refl)
  | inr e ↦ simp e (connections-stage (show (auto_fullscreen p.stores) p.stage).1, refl, refl)
]

phase_quiet :
    (p : Page)
    → let q = on_phase busy p in
      (connections q.1 ≡ []) × (q.0.session ≡ p.session) × (q.0.sessions ≡ p.sessions)
unfolding on_phase connections ◌>>>◌
phase_quiet p =
    let (a, b, c) = show_stage_quiet p in
    (connections-append (show_stage p).1 [] ∙ ap (λ l. l ++ []) a, b, c)

status_session :
    (text : Str) (p : Page)
    → let q = on_status text p in (q.session ≡ p.session) × (q.sessions ≡ p.sessions)
unfolding on_status say
status_session text p = ground arith

module _ (o : Browser) (i : ℕ) (room : Str) where
  -- What the page makes of the first step of a session with a token.
  abbrev last_steps : List SessionEffect
  last_steps = connect 0 (some room) none ∷ show_status (codes "Connecting to signaling…") ∷ []

  abbrev pub first_steps : List SessionEffect
  first_steps = connection_stats true ∷ show_phase busy ∷ last_steps

  current_phase :
      (p : Page)
      → p.session ≡ some i
      → is_viewer (p.sessions i) ≡ true
      → handle o i (show_phase busy) p ≡ on_phase busy p
  unfolding handle
  current_phase p c v = rw (c, v) (ground arith)

  -- The last two of the steps.
  shown_session :
      (text : Str) (p : Page)
      → let q = (handle o i (show_status text) p).0 in
        (q.session ≡ p.session) × (q.sessions ≡ p.sessions)
  unfolding handle
  shown_session text p = ground (arith, status_session text p)

  -- One socket is opened, for the room, and the page goes on with a current session and a state of it.
  abbrev pub Connected : Option Session → Option ℕ → Outcome → Type 0
  Connected kept session q =
      (connections q.1 ≡ (some room, none) ∷ []) × (q.0.session ≡ session) × (q.0.sessions i ≡ kept)

  last_handled : (p : Page) → Connected (p.sessions i) p.session (handle_all o i last_steps p)
  unfolding handle_all handle connections ◌>>>◌
  last_handled p =
      let (a, b) = shown_session (codes "Connecting to signaling…") p in (refl, a, ap (λ f. f i) b)

  after_phase :
      (q : Outcome)
      → connections q.1 ≡ []
      → Connected (q.0.sessions i) q.0.session (q >>> handle_all o i last_steps)
  unfolding ◌>>>◌
  after_phase (p, es) a =
      let (b, c, d) = last_handled p in
      (
        connections-append es (handle_all o i last_steps p).1
            ∙ (ap (λ l. l ++ connections (handle_all o i last_steps p).1) a ∙ b),
        c,
        d,
      )

  pub first_handled :
      (p : Page)
      → p.session ≡ some i
      → is_viewer (p.sessions i) ≡ true
      → Connected (p.sessions i) (some i) (handle_all o i first_steps p)
  unfolding handle_all handle connections ◌>>>◌
  first_handled p c v =
      let (a, b, k) = phase_quiet p in
      let (d, f, g) = after_phase (on_phase busy p) a in
      subst (λ (x : Outcome). Connected (p.sessions i) (some i) (x >>> handle_all o i last_steps))
        (sym (current_phase p c v)) (d, f ∙ (b ∙ c), g ∙ ap (λ s. s i) k)

pub resumed_viewer :
    (input : Input) (room token : Str)
    → is_truthy room ≡ true
    → is_truthy token ≡ true
    → (start_session input (new_session (by_token room token) true false input.now)).0.credentials
      ≡ by_token room token
unfolding start_session rejoin open_socket phase ◌>>>◌
resumed_viewer input room token h k = ground arith

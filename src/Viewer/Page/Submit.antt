-- ===== src/Viewer/Page/Submit.antt =====
-- The form of the page of viewer/src/main.ts asks for pairing with the code that was typed.
use laptop_as_a_second_monit.Common.{
  ℕ, ◌≡◌, refl, ap, ◌∙◌, sym, subst, Bool, true, false, Option, none, some, List, [], ◌∷◌, ◌++◌,
  Str, codes, arith,
}
use laptop_as_a_second_monit.Protocol.Pattern.{is_code}
use laptop_as_a_second_monit.Protocol.Code.{normalize_code}
use laptop_as_a_second_monit.Viewer.Session.State.{
  Session, by_code, pairing, Effect as SessionEffect, show_status, show_phase, connection_stats,
  request_pair, Input, ◌>>>◌,
}
use laptop_as_a_second_monit.Viewer.Session.State.Methods.{new_session, phase}
use laptop_as_a_second_monit.Viewer.Session.Signals.{
  start as start_session, rejoin, pair_or_throw, pair,
}
use laptop_as_a_second_monit.Viewer.Page.State.{
  Page, Browser, Effect, from_session, reset_dashboard, Outcome, put, say, set_busy, forget, emit,
}
use laptop_as_a_second_monit.Viewer.Page.Handlers.{
  is_reachable, on_status, on_phase, handle, handle_all, thrown_text, finish_launch, launch, start,
  fresh_form, made, enter, remember,
}
use laptop_as_a_second_monit.Viewer.Page.Resume.{stop_nothing}
use laptop_as_a_second_monit.Viewer.Page.Run.{submit, try_start, say_error}

-- The requests for pairing: the session, the code and the attempt.
abbrev pub request : ℕ → SessionEffect → List (ℕ × Str × ℕ)
request i (request_pair code attempt) = (i, code, attempt) ∷ []
request i _ = []

unfoldable pub requests : List Effect → List (ℕ × Str × ℕ)
requests [] = []
requests (from_session i e ∷ es) = request i e ++ requests es
requests (_ ∷ es) = requests es

abbrev pub begun : Input → Str → Session
begun input code = (start_session input (new_session (by_code code) true false input.now)).0

first_steps :
    (input : Input) (code : Str)
    → (start_session input (new_session (by_code code) true false input.now)).1
      ≡ connection_stats true
        ∷ show_phase pairing
        ∷ show_status (codes "Checking the pairing code…")
        ∷ request_pair code input.now
        ∷ []
unfolding start_session rejoin pair_or_throw pair phase ◌>>>◌
first_steps input code = refl

put_same : (i : ℕ) (t : Session) (f : ℕ → Option Session) → put i (some t) f i ≡ some t
put_same i t f = ground arith

-- A session that asks, and that the page keeps.
pub record Asks (i attempt : ℕ) (code : Str) (s : Session) (q : Outcome) : Type 0 where
  pub asked : requests q.1 ≡ (i, code, attempt) ∷ []
  pub current : q.0.session ≡ some i
  pub kept : q.0.sessions i ≡ some s

status_keeps :
    (text : Str) (p : Page)
    → let q = on_status text p in (q.session ≡ p.session) × (q.sessions ≡ p.sessions)
unfolding on_status say
status_keeps text p = ground arith

module _ (o : Browser) (i : ℕ) where
  phase_pairing : (p : Page) → handle o i (show_phase pairing) p ≡ (p, [])
  unfolding handle on_phase
  phase_pairing p = ground arith

  status_handled :
      (text : Str) (p : Page)
      → let q = (handle o i (show_status text) p).0 in
        (q.session ≡ p.session) × (q.sessions ≡ p.sessions)
  unfolding handle
  status_handled text p = ground (arith, status_keeps text p)

  -- What the page makes of the first steps of a session with a code.
  abbrev pub steps : ℕ → Str → List SessionEffect
  steps attempt code =
      connection_stats true
      ∷ show_phase pairing
      ∷ show_status (codes "Checking the pairing code…")
      ∷ request_pair code attempt
      ∷ []

  steps_handled :
      (attempt : ℕ) (code : Str) (p : Page) (s : Session)
      → p.sessions i ≡ some s
      → p.session ≡ some i
      → Asks i attempt code s (handle_all o i (steps attempt code) p)
  unfolding handle_all handle requests ◌>>>◌
  steps_handled attempt code p s kept current =
      let text = codes "Checking the pairing code…" in
      let (a, b) = status_handled text p in
      subst
        (λ (x : Outcome). Asks i attempt code s (
          emit (from_session i (connection_stats true)) p
          >>> (λ q. x >>> handle_all o i (show_status text ∷ request_pair code attempt ∷ []))))
        (sym (phase_pairing p))
        (record { asked = refl; current = a ∙ current; kept = ap (λ f. f i) b ∙ kept })

module _ (o : Browser) (input : Input) (code : Str) where
  launched :
      (reachable : Bool) (i : ℕ) (p : Page)
      → reachable ≡ true
      → p.session ≡ some i
      → let s = new_session (by_code code) reachable false input.now in
        let q = launch o input i s p in Asks i input.now code (begun input code) q.0 × (q.1 ≡ none)
  unfolding launch finish_launch
  launched false i p r c = cc
  launched true i p r c =
      let t = begun input code in
      let q = record p { sessions = put i (some t) p.sessions } in
      subst
        (λ es.
          let l = finish_launch i (handle_all o i es q) (thrown_text es) in
          Asks i input.now code t l.0 × (l.1 ≡ none))
        (sym (first_steps input code))
        (steps_handled o i input.now code q t (put_same i t p.sessions) c, refl)

  -- A page without a session starts one with a code.
  started :
      (p : Page)
      → is_reachable (o.parse_url p.server) ≡ true
      → p.session ≡ none
      → let q = start o input (by_code code) false p in
        Asks p.next_session input.now code (begun input code) q.0 × (q.1 ≡ none)
  unfolding start say set_busy enter requests
  started p r n =
      subst
        (λ (x : Outcome).
          let f = fresh_form x.0 in
          let s = made o input (by_code code) false f in
          let l = launch o input f.next_session s (enter s f) in
          Asks p.next_session input.now code (begun input code)
            (l.0.0, x.1 ++ reset_dashboard ∷ l.0.1)
          × (l.1 ≡ none))
        (sym (stop_nothing p n))
        (let (a, e) = launched (is_reachable (o.parse_url p.server)) p.next_session _ r refl in
          (record { asked = a.asked; current = a.current; kept = a.kept }, e))

  tried :
      (p : Page)
      → is_reachable (o.parse_url p.server) ≡ true
      → p.session ≡ none
      → Asks p.next_session input.now code
          (begun input code)
          (try_start o input (by_code code) false p)
  unfolding try_start
  tried p r n =
      let (a, e) = started p r n in
      let (q, error) = start o input (by_code code) false p in
      subst (λ x. Asks p.next_session input.now code (begun input code) (say_error x q.0, q.1))
        (sym e) (record { asked = a.asked; current = a.current; kept = a.kept })

  -- Where no session is there and the server's address is accepted, submitting a typed code asks for pairing
  -- with the code, once, in a new session, which is the current one from then on.
  pub submit-Asks :
      (p : Page)
      → is_code code ≡ true
      → normalize_code o.upper p.code ≡ code
      → is_reachable (o.parse_url p.server) ≡ true
      → p.session ≡ none
      → Asks p.next_session input.now code (begun input code) (submit o input p)
  unfolding submit forget
  submit-Asks p h k r n =
      let typed = record p { code = code } in
      rw (k, submit, h) (tried (forget (remember o p.server typed)) r n)

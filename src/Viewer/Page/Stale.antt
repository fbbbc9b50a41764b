-- ===== src/Viewer/Page/Stale.antt =====
-- What a session that is not the page's current one can still do to the page of viewer/src/main.ts.
use laptop_as_a_second_monit.Common.{
  ℕ, ◌≡◌, ◌≢◌, refl, ap, ◌∙◌, false, Option, none, some, List, [], ◌∷◌, All, All-append, ◌==◌,
  ==_iff, Bool-cases, inl, inr, ◌⊎◌,
}
use laptop_as_a_second_monit.Viewer.Session.State.{
  Session, Input, Effect as SessionEffect, show_status, show_error, show_phase, video, paired,
  ended,
}
use laptop_as_a_second_monit.Viewer.Session.Run.{Event as SessionEvent, step as step_session}
use laptop_as_a_second_monit.Viewer.Session.Rest.{IsResting, is_active, AllQuiet}
use laptop_as_a_second_monit.Viewer.Session.Rest.Steps.{step-Rests}
use laptop_as_a_second_monit.Viewer.Page.State.{
  Page, Browser, Effect, from_session, ◌>>>◌, is_current, put,
}
use laptop_as_a_second_monit.Viewer.Page.Handlers.{handle, handle_all}
use laptop_as_a_second_monit.Viewer.Page.Run.{on_session_with, on_session}
use laptop_as_a_second_monit.Viewer.Page.Invariant.{Good, IsAlone}

-- The pages are the same, or differ in one session, which rests.
abbrev pub IsSamePage : ℕ → Page → Page → Type 0
IsSamePage i p q =
    (q ≡ p)
    ⊎ ((t : Session) × IsResting t × (q ≡ record p { sessions = put i (some t) p.sessions }))

-- An effect of the session `i` that neither shows anything nor starts or serves a connection.
abbrev pub IsQuiet : ℕ → Effect → Type 0
IsQuiet i (from_session j e) = (j ≡ i) × (is_active e ≡ false)
IsQuiet i _ = ⊥

not_current : (i : ℕ) (o : Option ℕ) → o ≢ some i → is_current i o ≡ false
not_current i none n = refl
not_current i (some j) n = elim (Bool-cases (j == i)) [
  | inl same ↦ absurd (n (ap some ((==_iff j i).0 same)))
  | inr differ ↦ differ
]

module _ (o : Browser) (i : ℕ) where
  quiet_page :
      (e : SessionEffect) (p : Page)
      → is_active e ≡ false
      → is_current i p.session ≡ false
      → (handle o i e p).0 ≡ p
  unfolding handle
  quiet_page (show_status text) p h n = cc
  quiet_page (show_error text) p h n = rw n
  quiet_page (show_phase f) p h n = cc
  quiet_page (video stream) p h n = cc
  quiet_page (paired room token) p h n = cc
  quiet_page (ended reason) p h n = rw n
  quiet_page e p h n = refl

  handle-IsQuiet :
      (e : SessionEffect) (p : Page)
      → is_active e ≡ false
      → is_current i p.session ≡ false
      → All (IsQuiet i) (handle o i e p).1
  unfolding handle
  handle-IsQuiet (show_status text) p h n = cc
  handle-IsQuiet (show_error text) p h n = tt
  handle-IsQuiet (show_phase f) p h n = cc
  handle-IsQuiet (video stream) p h n = cc
  handle-IsQuiet (paired room token) p h n = cc
  handle-IsQuiet (ended reason) p h n = rw n tt
  handle-IsQuiet e p h n = ((refl, h), tt)

  handle_all-IsQuiet :
      (es : List SessionEffect) (p : Page)
      → AllQuiet es
      → is_current i p.session ≡ false
      → All (IsQuiet i) (handle_all o i es p).1
  unfolding handle_all ◌>>>◌
  handle_all-IsQuiet [] p h n = tt
  handle_all-IsQuiet (e ∷ es) p (q, h) n =
      let same = ap (λ (r : Page). is_current i r.session) (quiet_page e p q n) in
      All-append (IsQuiet i) _ _ (handle-IsQuiet e p q n)
        (handle_all-IsQuiet es (handle o i e p).0 h (same ∙ n))

  quiet_pages :
      (es : List SessionEffect) (p : Page)
      → AllQuiet es
      → is_current i p.session ≡ false
      → (handle_all o i es p).0 ≡ p
  unfolding handle_all ◌>>>◌
  quiet_pages [] p h n = refl
  quiet_pages (e ∷ es) p (q, h) n =
      ap (λ r. (handle_all o i es r).0) (quiet_page e p q n) ∙ quiet_pages es p h n

  stale_with :
      (input : Input) (e : SessionEvent) (s : Option Session) (p : Page)
      → p.sessions i ≡ s
      → p.session ≢ some i
      → IsAlone p
      → IsSamePage i p (on_session_with o input i e s p).0
        × All (IsQuiet i) (on_session_with o input i e s p).1
  unfolding on_session_with
  stale_with input e none p h n g = (inl refl, tt)
  stale_with input e (some s) p h n g =
      let (t, es) = step_session o.parse_json input e s in
      let (rests, quiet) = step-Rests o.parse_json input e s (g.others i s h n) in
      let q = record p { sessions = put i (some t) p.sessions } in
      let stale = not_current i p.session n in
      (inr (t, rests, quiet_pages es q quiet stale), handle_all-IsQuiet es q quiet stale)

  -- Whatever still happens to a session that is not the current one, it goes on resting, and the page is as
  -- before but for it: the form, the stage, what is saved and stored, the other sessions, and which of them is
  -- the current one.
  -- The effects are that session's own, and none is a status, a phase, a pairing, a request for one, a
  -- socket, a ping, a peer connection, a description, a candidate or a picture.
  pub on_session-stale :
      (input : Input) (e : SessionEvent) (p : Page)
      → Good p
      → p.session ≢ some i
      → IsSamePage i p (on_session o input i e p).0 × All (IsQuiet i) (on_session o input i e p).1
  unfolding on_session
  on_session-stale input e p g n = stale_with input e (p.sessions i) p refl n g.alone

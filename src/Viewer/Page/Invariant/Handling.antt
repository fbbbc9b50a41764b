-- ===== src/Viewer/Page/Invariant/Handling.antt =====
-- How the handlers that the page gives to a session keep its invariant.
use laptop_as_a_second_monit.Common.{
  ℕ, ◌≡◌, refl, ◌∙◌, Bool, true, false, ◌&&◌, not, Option, none, some, List, [], ◌∷◌, Str, str_eq,
  codes, if◌then◌else◌, arith, Bool-cases, inl, inr, ◌⊎◌,
}
use laptop_as_a_second_monit.Viewer.Session.State.{
  Effect as SessionEffect, Phase, pairing, connected, show_status, show_error, show_phase, video,
  paired, ended,
}
use laptop_as_a_second_monit.Viewer.Session.State.Methods.{same_phase}
use laptop_as_a_second_monit.Viewer.Stage.State.{status, error, attach, set_live}
use laptop_as_a_second_monit.Viewer.Page.State.{
  Page, Browser, Outcome, ◌>>>◌, say, on_its_stage, show_stage, is_current, stop,
}
use laptop_as_a_second_monit.Viewer.Page.Handlers.{
  is_viewer, on_status, on_error, on_phase, ended_text, on_ended, keep_pairing, on_paired, handle,
  handle_all,
}
use laptop_as_a_second_monit.Viewer.Page.Invariant.{Good}
use laptop_as_a_second_monit.Viewer.Page.Invariant.Sessions.{
  IsSame, IsSameScreen, Good-same, Good-both, stop-Good,
}
use laptop_as_a_second_monit.Viewer.Page.Invariant.Screens.{
  set_live_shown, show_shown, attach_shown,
}

status-IsSame :
    (text : Str) (p : Page) → IsSame p (on_status text p) × IsSameScreen p (on_status text p)
unfolding on_status say status
status-IsSame text p = ground arith

pub error-IsSame :
    (text : Str) (p : Page) → IsSame p (on_error text p) × IsSameScreen p (on_error text p)
unfolding on_error say error
error-IsSame text p = ground arith

-- The stage is shown, and nothing changes but that.
show_stage-Good : (p : Page) → Good p → Good (show_stage p).0
unfolding show_stage
show_stage-Good p g = elim (Bool-cases p.on_stage) [
  | inl e ↦ simp e g
  | inr e ↦ simp e (
      Good-same p _ (refl, refl, refl, refl, refl)
        (record { stage = show_shown _ p.stage; form = refl }) g)
]

live-Good : (on : Bool) (p : Page) → Good p → Good (record p { stage = set_live on p.stage })
live-Good on p g =
    Good-both p _ (refl, refl, refl, refl, refl) (set_live_shown on p.stage, refl, refl) g

phase-Good : (f : Phase) (p : Page) → Good p → Good (on_phase f p).0
unfolding on_phase ◌>>>◌
phase-Good f p g = elim (Bool-cases (same_phase f pairing)) [
  | inl e ↦ simp e g
  | inr e ↦ simp e (live-Good (same_phase f connected) (show_stage p).0 (show_stage-Good p g))
]

text-IsSame :
    (reason : Str) (p : Page)
    → IsSame p (ended_text reason p) × IsSameScreen p (ended_text reason p)
unfolding say
text-IsSame reason p = ground arith

marked-IsSame :
    (b : Bool) (p : Page)
    → let q = if b then record p { code_invalid = true } else p in IsSame p q × IsSameScreen p q
marked-IsSame b p = ground arith

-- The session is over, for whatever reason.
pub ended-Good :
    (reason : Str) (p : Page)
    → Good p
    → let q = (on_ended reason p).0 in Good q × (q.session ≡ none) × (q.on_stage ≡ false)
unfolding on_ended ◌>>>◌
ended-Good reason p g =
    let b = not (str_eq reason (codes "viewer-occupied")) in
    let (g', all, gone, off) = stop-Good b p g in
    let q = (stop b p).0 in
    let (m, ms) = marked-IsSame (str_eq reason (codes "invalid-code")) q in
    let r = if str_eq reason (codes "invalid-code") then record q { code_invalid = true } else q in
    let (t, ts) = text-IsSame reason r in
    (Good-both r _ t ts (Good-both q r m ms g'), t.0 ∙ (m.0 ∙ gone), ts.1 ∙ (ms.1 ∙ off))

module _ (o : Browser) where
  paired-IsSame :
      (room : Option Str) (token : Str) (p : Page)
      → IsSame p (on_paired o room token p) × IsSameScreen p (on_paired o room token p)
  unfolding on_paired keep_pairing
  paired-IsSame none token p = ground arith
  paired-IsSame (some room) token p = ground arith

  -- What one handler does to the current session: it leaves it, or there is none any longer.
  abbrev pub Leaves : Page → Page → Type 0
  Leaves p q = (q.session ≡ p.session) ⊎ (q.session ≡ none)

  abbrev Kept : Page → Page → Type 0
  Kept p q = Good q × Leaves p q

  same-Kept : (p q : Page) → IsSame p q → IsSameScreen p q → Good p → Kept p q
  same-Kept p q h k g = (Good-both p q h k g, inl h.0)

  if-Kept :
      (b : Bool) (p : Page) (f : Outcome)
      → Good p
      → Kept p f.0
      → Kept p (if b then f else (p, [])).0
  if-Kept true p f g k = k
  if-Kept false p f g k = (g, inl refl)

  if_page-Kept : (b : Bool) (p q : Page) → Good p → Kept p q → Kept p (if b then q else p)
  if_page-Kept true p q g k = k
  if_page-Kept false p q g k = (g, inl refl)

  phase-Leaves : (f : Phase) (p : Page) → Leaves p (on_phase f p).0
  unfolding on_phase show_stage ◌>>>◌
  phase-Leaves f p = ground arith

  attach-Kept :
      (stream : ℕ) (p : Page) → Good p → Kept p (on_its_stage (attach stream o.has_callback) p).0
  attach-Kept stream p g =
      same-Kept p _ (refl, refl, refl, refl, refl)
        (attach_shown stream o.has_callback p.stage, refl, refl) g

  handle-Kept : (i : ℕ) (e : SessionEffect) (p : Page) → Good p → Kept p (handle o i e p).0
  unfolding handle
  handle-Kept i (show_status text) p g =
      let (a, b) = status-IsSame text p in
      if_page-Kept (is_current i p.session) p _ g (same-Kept p _ a b g)
  handle-Kept i (show_error text) p g =
      let (a, b) = error-IsSame text p in
      if_page-Kept (is_current i p.session) p _ g (same-Kept p _ a b g)
  handle-Kept i (show_phase f) p g =
      if-Kept (is_current i p.session && is_viewer (p.sessions i)) p _ g
        (phase-Good f p g, phase-Leaves f p)
  handle-Kept i (video stream) p g = if-Kept (is_current i p.session) p _ g (attach-Kept stream p g)
  handle-Kept i (paired room token) p g =
      let (a, b) = paired-IsSame room token p in
      if_page-Kept (is_viewer (p.sessions i)) p _ g (same-Kept p _ a b g)
  handle-Kept i (ended reason) p g =
      let (a, b, off) = ended-Good reason p g in if-Kept (is_current i p.session) p _ g (a, inr b)
  handle-Kept i e p g = (g, inl refl)

  pub handle_all-Kept :
      (i : ℕ) (es : List SessionEffect) (p : Page) → Good p → Kept p (handle_all o i es p).0
  unfolding handle_all ◌>>>◌
  handle_all-Kept i [] p g = (g, inl refl)
  handle_all-Kept i (e ∷ es) p g =
      let (a, b) = handle-Kept i e p g in
      let (c, d) = handle_all-Kept i es (handle o i e p).0 a in (c, ground arith)

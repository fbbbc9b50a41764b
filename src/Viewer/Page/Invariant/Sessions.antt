-- ===== src/Viewer/Page/Invariant/Sessions.antt =====
-- How a session that moves on, and `stop`, keep the page's invariant.
use laptop_as_a_second_monit.Common.{
  ℕ, ◌≤◌, ◌<◌, ◌≡◌, ◌≢◌, refl, ap, ◌∙◌, sym, subst, Bool, true, false, Option, none, some, Str,
  ◌==◌, ==_iff, codes, if◌then◌else◌, arith, Bool-cases, inl, inr,
}
use laptop_as_a_second_monit.Viewer.Session.State.{Session}
use laptop_as_a_second_monit.Viewer.Session.State.Methods.{stop as stop_session}
use laptop_as_a_second_monit.Viewer.Session.Rest.{IsResting, stop-Rests}
use laptop_as_a_second_monit.Viewer.Page.State.{
  Page, ◌>>>◌, say, show_pairing, set_busy, forget, put, stop_one, stop_named, stop_current, stop,
}
use laptop_as_a_second_monit.Viewer.Page.Invariant.{IsOneScreen, IsAlone, Good}
use laptop_as_a_second_monit.Viewer.Page.Invariant.Screens.{hide_shown}

-- A step that only changes texts, what is stored, and what the stage shows.
abbrev pub IsSame : Page → Page → Type 0
IsSame p q =
    (q.session ≡ p.session)
    × (q.sessions ≡ p.sessions)
    × (q.next_session ≡ p.next_session)
    × (q.connect_disabled ≡ p.connect_disabled)
    × (q.cancel_hidden ≡ p.cancel_hidden)

abbrev pub IsSameScreen : Page → Page → Type 0
IsSameScreen p q =
    (q.stage.shown ≡ p.stage.shown)
    × (q.on_stage ≡ p.on_stage)
    × (q.pairing_hidden ≡ p.pairing_hidden)

pub IsAlone-same : (p q : Page) → IsSame p q → IsAlone p → IsAlone q
IsAlone-same p q (a, b, c, d, e) g = record {
  others = λ i s h n. g.others i s (ap (λ f. f i) (sym b) ∙ h) (λ k. n (a ∙ k));
  fresh = λ i h. ap (λ f. f i) b ∙ g.fresh i (subst (λ n. n ≤ i) c h);
  known = λ i h. subst (λ n. i < n) (sym c) (g.known i (sym a ∙ h));
}

pub Good-same : (p q : Page) → IsSame p q → IsOneScreen q → Good p → Good q
Good-same p q (a, b, c, d, e) v g = record {
  screen = v;
  busy = record { waits = ground (arith, g.busy); cancels = ground (arith, g.busy) };
  alone = IsAlone-same p q (a, b, c, d, e) g.alone;
}

pub IsOneScreen-same : (p q : Page) → IsSameScreen p q → IsOneScreen p → IsOneScreen q
IsOneScreen-same p q h v = ground arith

pub Good-both : (p q : Page) → IsSame p q → IsSameScreen p q → Good p → Good q
Good-both p q h k g = Good-same p q h (IsOneScreen-same p q k g.screen) g

pub say-IsSame :
    (text : Str) (e : Bool) (p : Page) → IsSame p (say text e p) × IsSameScreen p (say text e p)
unfolding say
say-IsSame text e p = ((refl, refl, refl, refl, refl), (refl, refl, refl))

-- All sessions rest.
abbrev pub AllRest : Page → Type 0
AllRest p = (i : ℕ) (s : Session) → p.sessions i ≡ some s → IsResting s

stop_one-AllRest :
    (i : ℕ) (o : Option Session) (p : Page)
    → p.session ≡ some i
    → p.sessions i ≡ o
    → IsAlone p
    → AllRest (stop_one i o p).0
unfolding stop_one
stop_one-AllRest i none p e h g = λ j s k. elim (Bool-cases (j == i)) [
  | inl same ↦ absurd (cc (k, h, ap p.sessions ((==_iff j i).0 same)))
  | inr differ ↦ g.others j s k (λ q. ground arith)
]
stop_one-AllRest i (some t) p e h g = λ j s k. elim (Bool-cases (j == i)) [
  | inl same ↦ subst IsResting (ground arith) (stop-Rests t).0
  | inr differ ↦ g.others j s (ground arith) (λ q. ground arith)
]

-- A session that moves on, if it is the current one or rests.
pub put-IsAlone :
    (i : ℕ) (t : Session) (p : Page)
    → i < p.next_session
    → (p.session ≢ some i → IsResting t)
    → IsAlone p
    → IsAlone (record p { sessions = put i (some t) p.sessions })
put-IsAlone i t p h r g = record {
  others = λ j s k n. elim (Bool-cases (j == i)) [
    | inl same ↦
        subst IsResting (ground arith) (r (λ q. n (q ∙ ap some (sym ((==_iff j i).0 same)))))
    | inr differ ↦ g.others j s (ground arith) n
  ];
  fresh = λ j k. ground (arith, g.fresh j k);
  known = g.known;
}

pub put-Good :
    (i : ℕ) (t : Session) (p : Page)
    → i < p.next_session
    → (p.session ≢ some i → IsResting t)
    → Good p
    → Good (record p { sessions = put i (some t) p.sessions })
put-Good i t p h r g = record {
  screen = record { stage = g.screen.stage; form = g.screen.form };
  busy = record { waits = g.busy.waits; cancels = g.busy.cancels };
  alone = put-IsAlone i t p h r g.alone;
}

stop_one-Good :
    (i : ℕ) (o : Option Session) (p : Page) → p.session ≡ some i → Good p → Good (stop_one i o p).0
unfolding stop_one
stop_one-Good i none p e g = g
stop_one-Good i (some t) p e g =
    put-Good i (stop_session t).0 p (g.alone.known i e) (λ n. (stop-Rests t).0) g

pub stop_named-Good : (o : Option ℕ) (p : Page) → p.session ≡ o → Good p → Good (stop_named o p).0
unfolding stop_named
stop_named-Good none p e g = g
stop_named-Good (some i) p e g = stop_one-Good i (p.sessions i) p e g

pub stop_named-AllRest :
    (o : Option ℕ) (p : Page) → p.session ≡ o → IsAlone p → AllRest (stop_named o p).0
unfolding stop_named
stop_named-AllRest none p e g = λ i s h. g.others i s h (λ q. cc)
stop_named-AllRest (some i) p e g = stop_one-AllRest i (p.sessions i) p e refl g

forget-Good : (b : Bool) (p : Page) → Good p → Good (if b then forget p else p)
unfolding forget
forget-Good true p g = Good-both p _ (refl, refl, refl, refl, refl) (refl, refl, refl) g
forget-Good false p g = g

-- No session is the current one any longer.
leave-IsAlone :
    (p : Page) (b : Bool)
    → AllRest p
    → IsAlone p
    → IsAlone (record p { session = none; pattern_timer = b })
leave-IsAlone p b r g = record { others = λ i s h n. r i s h; fresh = g.fresh; known = λ i h. cc }

show_pairing_screen :
    (p : Page)
    → IsOneScreen p
    → IsOneScreen (show_pairing p).0 × ((show_pairing p).0.on_stage ≡ false)
unfolding show_pairing ◌>>>◌
show_pairing_screen p v = elim (Bool-cases p.on_stage) [
  | inl e ↦ simp e (record { stage = hide_shown p.stage; form = refl }, refl)
  | inr e ↦ simp e (v, refl)
]

show_pairing-IsSame : (p : Page) → IsSame p (show_pairing p).0
unfolding show_pairing ◌>>>◌
show_pairing-IsSame p = ground arith

idle-Good : (p : Page) → p.session ≡ none → IsOneScreen p → IsAlone p → Good (set_busy false p)
unfolding set_busy
idle-Good p e v g = record {
  screen = record { stage = v.stage; form = v.form };
  busy = record { waits = ground arith; cancels = ground arith };
  alone = record { others = g.others; fresh = g.fresh; known = g.known };
}

-- After `stop` the form is shown and no session is left that does anything.
pub stop-Good :
    (b : Bool) (p : Page)
    → Good p
    → let q = (stop b p).0 in Good q × AllRest q × (q.session ≡ none) × (q.on_stage ≡ false)
unfolding stop ◌>>>◌
stop-Good b p g =
    let f = if b then forget p else p in
    let g' = forget-Good b p g in
    let s = (stop_current f).0 in
    let all = stop_named-AllRest f.session f refl g'.alone in
    let gs = stop_named-Good f.session f refl g' in
    let l = record s { session = none; pattern_timer = false } in
    let (v, off) =
      show_pairing_screen l (record { stage = gs.screen.stage; form = gs.screen.form }) in
    let same = show_pairing-IsSame l in
    let q = (show_pairing l).0 in
    let g'' = idle-Good q (same.0) v (IsAlone-same l q same (leave-IsAlone s false all gs.alone)) in
    let (a, b) = say-IsSame (codes "Disconnected.") false (set_busy false q) in
    unfold set_busy say in
    (
      Good-both (set_busy false q) _ a b g'',
      λ i s h. all i s (ap (λ f. f i) (sym (same.1)) ∙ h),
      same.0,
      off,
    )

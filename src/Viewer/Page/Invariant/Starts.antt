-- ===== src/Viewer/Page/Invariant/Starts.antt =====
-- How `start` keeps the page's invariant, whether it throws or not.
use laptop_as_a_second_monit.Common.{
  ℕ, ◌<◌, ◌≡◌, refl, ap, sym, Bool, true, false, Option, none, some, List, Str, ◌==◌, ==_iff, arith,
  Bool-cases, inl, inr, ◌⊎◌,
}
use laptop_as_a_second_monit.Viewer.Session.State.{Session, Credentials, Input}
use laptop_as_a_second_monit.Viewer.Session.Signals.{start as start_session}
use laptop_as_a_second_monit.Viewer.Page.State.{
  Page, Browser, Effect, say, set_busy, put, stop_current,
}
use laptop_as_a_second_monit.Viewer.Page.Handlers.{
  handle_all, thrown_text, made, enter, drop_failed, finish_launch, launch, fresh_form, start,
}
use laptop_as_a_second_monit.Viewer.Page.Invariant.{IsOneScreen, IsAlone, Good}
use laptop_as_a_second_monit.Viewer.Page.Invariant.Sessions.{
  AllRest, put-Good, stop_named-Good, stop_named-AllRest,
}
use laptop_as_a_second_monit.Viewer.Page.Invariant.Handling.{handle_all-Kept}

-- A page on which nothing goes on takes a new session.
enter-Good :
    (s : Session) (p : Page)
    → IsOneScreen p
    → p.connect_disabled ≡ true
    → p.cancel_hidden ≡ false
    → AllRest p
    → IsAlone p
    → Good (enter s p)
unfolding enter
enter-Good s p v b c r g = record {
  screen = record { stage = v.stage; form = v.form };
  busy = record { waits = b; cancels = c };
  alone = record {
    others = λ j t k n. elim (Bool-cases (j == p.next_session)) [
      | inl same ↦ absurd (n (ap some (sym ((==_iff j p.next_session).0 same))))
      | inr differ ↦ r j t (ground arith)
    ];
    fresh = λ j h. ground (arith, g.fresh j);
    known = λ j h. ground arith;
  };
}

drop-Good :
    (i : ℕ) (p : Page) → (p.session ≡ some i) ⊎ (p.session ≡ none) → Good p → Good (drop_failed i p)
unfolding drop_failed set_busy
drop-Good i p c g = record {
  screen = record { stage = g.screen.stage; form = g.screen.form };
  busy = record { waits = refl; cancels = refl };
  alone = record {
    others = λ j t k n. elim (Bool-cases (j == i)) [
      | inl same ↦ absurd (ground arith)
      | inr differ ↦ g.alone.others j t (ground arith) (λ q. ground arith)
    ];
    fresh = λ j h. ground (arith, g.alone.fresh j);
    known = λ j h. cc;
  };
}

module _ (o : Browser) where
  finish-Good :
      (i : ℕ) (q : Page) (done : List Effect) (e : Option Str)
      → (q.session ≡ some i) ⊎ (q.session ≡ none)
      → Good q
      → Good (finish_launch i (q, done) e).0.0
  unfolding finish_launch
  finish-Good i q done none c g = g
  finish-Good i q done (some text) c g = drop-Good i q c g

  launch-Good :
      (input : Input) (i : ℕ) (s : Session) (p : Page)
      → p.session ≡ some i
      → i < p.next_session
      → Good p
      → Good (launch o input i s p).0.0
  unfolding launch
  launch-Good input i s p e h g =
      let t = (start_session input s).0 in
      let es = (start_session input s).1 in
      let q = record p { sessions = put i (some t) p.sessions } in
      let g' : Good q = put-Good i t p h (λ n. absurd (n e)) g in
      let (g'', leaves) = handle_all-Kept o i es q g' in
      finish-Good i (handle_all o i es q).0 (handle_all o i es q).1 (thrown_text es) (ground arith)
        g''

  form-Good : (s : Session) (p : Page) → AllRest p → Good p → Good (enter s (fresh_form p))
  unfolding say set_busy
  form-Good s p all g =
      enter-Good s (fresh_form p) (record { stage = g.screen.stage; form = g.screen.form }) refl
        refl all (record { others = g.alone.others; fresh = g.alone.fresh; known = g.alone.known })

  -- Whether the new session starts or throws.
  pub start-Good :
      (input : Input) (credentials : Credentials) (stream : Bool) (p : Page)
      → Good p
      → Good (start o input credentials stream p).0.0
  unfolding start enter say set_busy
  start-Good input credentials stream p g =
      let q = (stop_current p).0 in
      let r = fresh_form q in
      let s = made o input credentials stream r in
      let gs = stop_named-Good p.session p refl g in
      let all = stop_named-AllRest p.session p refl g.alone in
      launch-Good input r.next_session s (enter s r) refl (omega arith) (form-Good s q all gs)

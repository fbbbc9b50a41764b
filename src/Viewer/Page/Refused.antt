-- ===== src/Viewer/Page/Refused.antt =====
-- What the page of viewer/src/main.ts shows when the server refuses a code: the session's answer and the
-- page's handlers together.
use laptop_as_a_second_monit.Common.{
  ℕ, ◌≡◌, refl, ap, ◌∙◌, sym, Bool, true, false, ◌||◌, Option, none, some, List, [], ◌∷◌, ◌++◌, Str,
  codes, str_eq, All, All-append, if◌then◌else◌, arith, subst,
}
use laptop_as_a_second_monit.Protocol.Message.{pair_error}
use laptop_as_a_second_monit.Viewer.Session.State.{
  Session, Peer, Socket, Input, Effect as SessionEffect, show_status, show_error, show_phase, video,
  paired, ended, stop_tracks, connection_stats,
}
use laptop_as_a_second_monit.Viewer.Session.State.Methods.{
  stop as stop_session, closing, disconnecting, reset_peer, close_socket,
}
use laptop_as_a_second_monit.Viewer.Session.Signals.{
  on_pair_response, take_answer, pair_failed, error_text,
}
use laptop_as_a_second_monit.Viewer.Session.Run.{pairs, step as step_session}
use laptop_as_a_second_monit.Viewer.Page.State.{
  Page, Browser, ◌>>>◌, is_empty, say, put, is_current,
}
use laptop_as_a_second_monit.Viewer.Page.Handlers.{on_error, on_ended, handle, handle_all}
use laptop_as_a_second_monit.Viewer.Page.Run.{on_session_with, on_session}
use laptop_as_a_second_monit.Viewer.Page.Invariant.{Good}
use laptop_as_a_second_monit.Viewer.Page.Invariant.Sessions.{Good-both, put-Good}
use laptop_as_a_second_monit.Viewer.Page.Invariant.Handling.{error-IsSame}
use laptop_as_a_second_monit.Viewer.Page.Ended.{IsBack, removed, farewell, on_ended-IsBack}

-- What a handler of the page is for.
abbrev is_heard : SessionEffect → Bool
is_heard (show_status t) = true
is_heard (show_error t) = true
is_heard (show_phase f) = true
is_heard (video i) = true
is_heard (paired room token) = true
is_heard (ended reason) = true
is_heard _ = false

abbrev AllUnheard : List SessionEffect → Type 0
AllUnheard = All (λ e. is_heard e ≡ false)

closing_unheard : (o : Option Peer) → AllUnheard (closing o)
closing_unheard none = tt
closing_unheard (some p) = (refl, tt)

disconnecting_unheard : (o : Option Socket) → AllUnheard (disconnecting o)
disconnecting_unheard none = tt
disconnecting_unheard (some w) = (refl, tt)

tracks_unheard : (b : Bool) → AllUnheard (if b then stop_tracks ∷ [] else [])
tracks_unheard true = (refl, tt)
tracks_unheard false = tt

stop_unheard : (s : Session) → AllUnheard (stop_session s).1
unfolding stop_session ◌>>>◌ reset_peer close_socket
stop_unheard s =
    let quiet = λ (e : SessionEffect). is_heard e ≡ false in
    All-append quiet _ _
      (All-append quiet _ _
        (All-append quiet (closing s.peer) (connection_stats true ∷ []) (closing_unheard s.peer)
          (refl, tt))
        (disconnecting_unheard s.socket))
      (tracks_unheard s.stream)

module _ (o : Browser) (i : ℕ) where
  handle_unheard : (e : SessionEffect) (p : Page) → is_heard e ≡ false → (handle o i e p).0 ≡ p
  unfolding handle
  handle_unheard (show_status text) p h = cc
  handle_unheard (show_error text) p h = cc
  handle_unheard (show_phase f) p h = cc
  handle_unheard (video stream) p h = cc
  handle_unheard (paired room token) p h = cc
  handle_unheard (ended reason) p h = cc
  handle_unheard e p h = refl

  handle_all_unheard :
      (es : List SessionEffect) (p : Page) → AllUnheard es → (handle_all o i es p).0 ≡ p
  unfolding handle_all ◌>>>◌
  handle_all_unheard [] p h = refl
  handle_all_unheard (e ∷ es) p (q, h) =
      ap (λ r. (handle_all o i es r).0) (handle_unheard e p q) ∙ handle_all_unheard es p h

  handle_all-append :
      (es fs : List SessionEffect) (p : Page)
      → (handle_all o i (es ++ fs) p).0 ≡ (handle_all o i fs (handle_all o i es p).0).0
  unfolding handle_all ◌>>>◌
  handle_all-append [] fs p = refl
  handle_all-append (e ∷ es) fs p = handle_all-append es fs (handle o i e p).0

  handle_error :
      (text : Str) (p : Page)
      → is_current i p.session ≡ true
      → (handle o i (show_error text) p).0 ≡ on_error text p
  unfolding handle
  handle_error text p c = rw c

  handle_end :
      (reason : Str) (p : Page)
      → is_current i p.session ≡ true
      → (handle_all o i (ended reason ∷ []) p).0 ≡ (on_ended reason p).0
  unfolding handle_all handle ◌>>>◌
  handle_end reason p c = rw c

  handle_all-cons :
      (e : SessionEffect) (es : List SessionEffect) (p : Page)
      → (handle_all o i (e ∷ es) p).0 ≡ (handle_all o i es (handle o i e p).0).0
  unfolding handle_all ◌>>>◌
  handle_all-cons e es p = refl

  -- An error, then the end of the session.
  handle_failure :
      (text reason : Str) (es : List SessionEffect) (p : Page)
      → is_current i p.session ≡ true
      → AllUnheard es
      → (handle_all o i ((show_error text ∷ es) ++ ended reason ∷ []) p).0
        ≡ (on_ended reason (on_error text p)).0
  handle_failure text reason es p c h =
      let q = on_error text p in
      let shown =
        handle_all-cons (show_error text) es p
        ∙ (ap (λ r. (handle_all o i es r).0) (handle_error text p c) ∙ handle_all_unheard es q h) in
      handle_all-append (show_error text ∷ es) (ended reason ∷ []) p
      ∙ (ap (λ r. (handle_all o i (ended reason ∷ []) r).0) shown
          ∙ handle_end reason q (ap (is_current i) (error-IsSame text p).0.0 ∙ c))

error_text_filled : (e : Str) → is_empty (error_text e) ≡ false
unfolding error_text
error_text_filled e = ground arith

error_told : (text : Str) (p : Page) → (on_error text p).last_error ≡ text
unfolding on_error say
error_told text p = ground arith

error_saved :
    (text : Str) (p : Page)
    → let q = on_error text p in
      (q.saved ≡ p.saved) × (q.stored ≡ p.stored) × (q.code_invalid ≡ p.code_invalid)
unfolding on_error say
error_saved text p = ground arith

-- The answer to a pairing request is an error that is not the host's absence.
refusal :
    (e : Str) (s : Session)
    → s.stopped ≡ false
    → str_eq e (codes "host-unavailable") ≡ false
    → on_pair_response s.started (some (pair_error e)) s
      ≡ ((stop_session s).0, (show_error (error_text e) ∷ (stop_session s).1) ++ ended e ∷ [])
unfolding on_pair_response take_answer pair_failed ◌>>>◌
refusal e s h k = ground arith

farewell_told :
    (e : Str) → str_eq e (codes "kicked") ≡ false → farewell e (error_text e) ≡ error_text e
farewell_told e k = simp (k, error_text_filled e) refl

module _ (o : Browser) (i : ℕ) (e : Str) where
  -- The page is back at its form, with the text that explains the error.
  abbrev pub IsRefused : Page → Page → Type 0
  IsRefused p q =
      IsBack (if str_eq e (codes "viewer-occupied") then p.saved else none)
        (if str_eq e (codes "viewer-occupied") then p.stored else removed p.stored)
        (str_eq e (codes "invalid-code") || p.code_invalid) (error_text e) q

  end-IsRefused :
      (p : Page)
      → Good p
      → str_eq e (codes "kicked") ≡ false
      → IsRefused p (on_ended e (on_error (error_text e) p)).0
  end-IsRefused p g k =
      let q = on_error (error_text e) p in
      let (a, b) = error-IsSame (error_text e) p in
      let (saved, stored, invalid) = error_saved (error_text e) p in
      let back = on_ended-IsBack e q (Good-both p q a b g) in
      record {
        session = back.session;
        form = back.form;
        ready = back.ready;
        saved = back.saved ∙ ap (λ x. if str_eq e (codes "viewer-occupied") then x else none) saved;
        stored =
            back.stored
            ∙ ap (λ x. if str_eq e (codes "viewer-occupied") then x else removed x) stored;
        invalid = back.invalid ∙ ap (λ x. str_eq e (codes "invalid-code") || x) invalid;
        message =
            back.message ∙ (ap (farewell e) (error_told (error_text e) p) ∙ farewell_told e k);
      }

  IsRefused-with :
      (input : Input) (s : Session) (p : Page)
      → Good p
      → p.session ≡ some i
      → s.stopped ≡ false
      → str_eq e (codes "host-unavailable") ≡ false
      → str_eq e (codes "kicked") ≡ false
      → IsRefused p (on_session_with o input i (pairs s.started (some (pair_error e))) (some s) p).0
  unfolding on_session_with step_session
  IsRefused-with input s p g c h a k =
      let es = (stop_session s).1 in
      let q = record p { sessions = put i (some (stop_session s).0) p.sessions } in
      let gq : Good q = put-Good i (stop_session s).0 p (g.alone.known i c) (λ m. absurd (m c)) g in
      let all = handle_failure o i (error_text e) e es q (ground arith) (stop_unheard s) in
      subst
        (λ x.
          IsRefused p (handle_all o i x.1 (record p { sessions = put i (some x.0) p.sessions })).0)
        (sym (refusal e s h a)) (subst (IsRefused p) (sym all) (end-IsRefused q gq k))

  -- When the server refuses the pairing request of the page's session, but not for the host's absence, the
  -- page is back at its form with the text that explains the error, and without a session; a saved session
  -- is kept where the host has another viewer, and otherwise it is gone from the page and from the
  -- session's storage, which a reload reads; and a code that is not valid is marked.
  pub on_session-IsRefused :
      (input : Input) (s : Session) (p : Page)
      → Good p
      → p.session ≡ some i
      → p.sessions i ≡ some s
      → s.stopped ≡ false
      → str_eq e (codes "host-unavailable") ≡ false
      → str_eq e (codes "kicked") ≡ false
      → IsRefused p (on_session o input i (pairs s.started (some (pair_error e))) p).0
  unfolding on_session
  on_session-IsRefused input s p g c n h a k =
      subst
        (λ x. IsRefused p (on_session_with o input i (pairs s.started (some (pair_error e))) x p).0)
        (sym n) (IsRefused-with input s p g c h a k)

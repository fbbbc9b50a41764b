-- ===== src/Viewer/Page/Ended.antt =====
-- How the page of viewer/src/main.ts comes back to its form when a session is over.
use laptop_as_a_second_monit.Common.{
  ℕ, ◌≡◌, refl, ap, ◌∙◌, Bool, true, false, ◌||◌, not, Option, none, some, Str, codes, str_eq,
  if◌then◌else◌, arith, Bool-cases, inl, inr, is_some,
}
use laptop_as_a_second_monit.Viewer.Session.State.{Session}
use laptop_as_a_second_monit.Viewer.Page.State.{
  Page, Saved, ◌>>>◌, is_empty, say, show_pairing, set_busy, forget, without_item, stop_one,
  stop_named, stop_current, stop,
}
use laptop_as_a_second_monit.Viewer.Page.Handlers.{ended_text, on_ended}
use laptop_as_a_second_monit.Viewer.Page.Invariant.{Good}
use laptop_as_a_second_monit.Viewer.Page.Invariant.Handling.{ended-Good}

-- What a person sees, and what is kept, once a session is over.
pub record IsBack (kept : Option Saved) (item : Option (Option Str)) (wrong : Bool) (text : Str)
    (p : Page) : Type 0 where
  pub session : p.session ≡ none
  pub form : (p.pairing_hidden ≡ false) × (p.on_stage ≡ false) × (p.stage.shown ≡ false)
  pub ready : (p.connect_disabled ≡ false) × (p.cancel_hidden ≡ true)
  pub saved : p.saved ≡ kept
  pub stored : p.stored ≡ item
  pub invalid : p.code_invalid ≡ wrong
  pub message : p.message ≡ text

-- What `stop` leaves alone.
abbrev IsKept : Page → Page → Type 0
IsKept p q =
    (q.saved ≡ p.saved)
    × (q.stored ≡ p.stored)
    × (q.code_invalid ≡ p.code_invalid)
    × (q.last_error ≡ p.last_error)

-- The item of the session's storage is gone, where the storage works.
abbrev pub removed : Option (Option Str) → Option (Option Str)
removed none = none
removed (some item) = some none

stop_one_kept : (i : ℕ) (o : Option Session) (p : Page) → IsKept p (stop_one i o p).0
unfolding stop_one
stop_one_kept i none p = (refl, refl, refl, refl)
stop_one_kept i (some s) p = (refl, refl, refl, refl)

stop_named_kept : (o : Option ℕ) (p : Page) → IsKept p (stop_named o p).0
unfolding stop_named
stop_named_kept none p = (refl, refl, refl, refl)
stop_named_kept (some i) p = stop_one_kept i (p.sessions i) p

without_item-removed : (o : Option (Option Str)) → without_item o ≡ removed o
without_item-removed none = refl
without_item-removed (some item) = refl

forget_kept :
    (b : Bool) (p : Page)
    → let q = if b then forget p else p in
      (q.saved ≡ (if b then none else p.saved))
      × (q.stored ≡ (if b then removed p.stored else p.stored))
      × (q.code_invalid ≡ p.code_invalid)
      × (q.last_error ≡ p.last_error)
unfolding forget
forget_kept true p = (refl, without_item-removed p.stored, refl, refl)
forget_kept false p = (refl, refl, refl, refl)

pairing_kept : (p : Page) → IsKept p (show_pairing p).0
unfolding show_pairing ◌>>>◌
pairing_kept p = ground arith

stop_kept :
    (b : Bool) (p : Page)
    → let q = (stop b p).0 in
      (q.saved ≡ (if b then none else p.saved))
      × (q.stored ≡ (if b then removed p.stored else p.stored))
      × (q.code_invalid ≡ p.code_invalid)
      × (q.last_error ≡ p.last_error)
      × (q.message ≡ codes "Disconnected.")
unfolding stop set_busy say ◌>>>◌
stop_kept b p =
    let f = if b then forget p else p in
    let s = record ((stop_current f).0) { session = none; pattern_timer = false } in
    let (a, b, c, d) = forget_kept b p in
    let (a', b', c', d') = stop_named_kept f.session f in
    let (a'', b'', c'', d'') = pairing_kept s in
    (a'' ∙ (a' ∙ a), b'' ∙ (b' ∙ b), c'' ∙ (c' ∙ c), d'' ∙ (d' ∙ d), refl)

-- The text under the code, once a session has ended.
abbrev pub farewell : (reason last_error : Str) → Str
farewell reason last_error =
    if str_eq reason (codes "kicked")
    then codes "Disconnected by the host. Enter the current code to reconnect."
    else if is_empty last_error
    then codes "Disconnected."
    else last_error

ended_text_kept :
    (reason : Str) (p : Page)
    → p.message ≡ codes "Disconnected."
    → let q = ended_text reason p in
      (q.saved ≡ p.saved)
      × (q.stored ≡ p.stored)
      × (q.code_invalid ≡ p.code_invalid)
      × (q.message ≡ farewell reason p.last_error)
unfolding say
ended_text_kept reason p h = ground arith

after_stop :
    (reason : Str) (q : Page)
    → q.message ≡ codes "Disconnected."
    → let wrong = str_eq reason (codes "invalid-code") in
      let r = ended_text reason (if wrong then record q { code_invalid = true } else q) in
      (r.saved ≡ q.saved)
      × (r.stored ≡ q.stored)
      × (r.code_invalid ≡ (wrong || q.code_invalid))
      × (r.message ≡ farewell reason q.last_error)
after_stop reason q h = elim (Bool-cases (str_eq reason (codes "invalid-code"))) [
  | inl e ↦ simp e (ended_text_kept reason (record q { code_invalid = true }) h)
  | inr e ↦ simp e (ended_text_kept reason q h)
]

if_not {ℓ} : {A : Type ℓ} (b : Bool) (x y : A) → (if not b then x else y) ≡ (if b then y else x)
if_not true x y = refl
if_not false x y = refl

-- The end of a session takes the page back to its form, ready for a code; what was saved is forgotten, in
-- the page and in the session's storage, but where the host has another viewer; a code that was refused is marked; and the text says that the
-- host disconnected, or repeats the last error, or says that the session is over.
pub on_ended-IsBack :
    (reason : Str) (p : Page)
    → Good p
    → IsBack
        (if str_eq reason (codes "viewer-occupied") then p.saved else none)
        (if str_eq reason (codes "viewer-occupied") then p.stored else removed p.stored)
        (str_eq reason (codes "invalid-code") || p.code_invalid)
        (farewell reason p.last_error)
        (on_ended reason p).0
unfolding on_ended ◌>>>◌
on_ended-IsBack reason p g =
    let occupied = str_eq reason (codes "viewer-occupied") in
    let (g', gone, off) = ended-Good reason p g in
    let (saved, stored, invalid, error, said) = stop_kept (not occupied) p in
    let (saved', stored', invalid', said') = after_stop reason (stop (not occupied) p).0 said in
    record {
      session = gone;
      form = (g'.screen.form ∙ off, off, g'.screen.stage ∙ off);
      ready = (g'.busy.waits ∙ ap is_some gone, g'.busy.cancels ∙ ap (λ s. not (is_some s)) gone);
      saved = saved' ∙ (saved ∙ if_not occupied none p.saved);
      stored = stored' ∙ (stored ∙ if_not occupied (removed p.stored) p.stored);
      invalid = invalid' ∙ ap (λ b. str_eq reason (codes "invalid-code") || b) invalid;
      message = said' ∙ ap (farewell reason) error;
    }

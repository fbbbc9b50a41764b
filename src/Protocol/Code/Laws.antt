-- ===== src/Protocol/Code/Laws.antt =====
-- Normalising a typed code, and the codes that the page makes up.
use laptop_as_a_second_monit.Common.{
  ℕ, zero, suc, ◌+◌, ◌%◌, ◌<◌, ◌≡◌, refl, ap, true, false, List, [], ◌∷◌, Str, in_range, filter,
  get_elem?, length, all, arith, Bool-cases, inl, inr,
}
use laptop_as_a_second_monit.Protocol.Pattern.{is_code_char, is_code, repeats}
use laptop_as_a_second_monit.Protocol.Code.{
  upper, to_upper_case, is_kept, normalize_code, printed, code_char, random_code, code_alphabet,
}

-- An ASCII character of a kept class is its own upper case.
upper_kept : (other : ℕ → Str) (c : ℕ) → is_kept c ≡ true → upper other c ≡ c ∷ []
unfolding upper
upper_kept other c h = ground arith

all_kept_filter : (s : Str) → all is_kept (filter is_kept s) ≡ true
all_kept_filter [] = refl
all_kept_filter (c ∷ s) = elim (Bool-cases (is_kept c)) [
  | inl e ↦ rw e (rw e (all_kept_filter s))
  | inr e ↦ rw e (all_kept_filter s)
]

filter_kept : (s : Str) → all is_kept s ≡ true → filter is_kept s ≡ s
filter_kept [] h = refl
filter_kept (c ∷ s) h = elim (Bool-cases (is_kept c)) [
  | inl e ↦ rw e (ap (λ t. c ∷ t) (filter_kept s (rw e at h)))
  | inr e ↦ absurd (ground arith)
]

to_upper_case_kept : (other : ℕ → Str) (s : Str) → all is_kept s ≡ true → to_upper_case other s ≡ s
unfolding to_upper_case
to_upper_case_kept other [] h = refl
to_upper_case_kept other (c ∷ s) h = elim (Bool-cases (is_kept c)) [
  | inl e ↦ rw (upper_kept other c e) (ap (λ t. c ∷ t) (to_upper_case_kept other s (rw e at h)))
  | inr e ↦ absurd (ground arith)
]

normalize_code_kept :
    (other : ℕ → Str) (s : Str) → all is_kept s ≡ true → normalize_code other s ≡ s
unfolding normalize_code
normalize_code_kept other s h = rw (to_upper_case_kept other s h) (filter_kept s h)

-- Normalising a second time changes nothing, and the result holds only `A` to `Z` and `2` to `9`.
pub normalize_code_idempotent :
    (other : ℕ → Str) (s : Str)
    → (normalize_code other (normalize_code other s) ≡ normalize_code other s)
      × (all is_kept (normalize_code other s) ≡ true)
unfolding normalize_code
normalize_code_idempotent other s =
    let kept = all_kept_filter (to_upper_case other s) in (normalize_code_kept other _ kept, kept)

-- A way to type a code: letters in either case, with other ASCII characters in between.
pub data Typed : Str → Str → Type 0 where
  nothing : Typed [] []
  separator :
      {t s : Str} (c : ℕ)
      → c < 128
      → in_range b'a' b'z' c ≡ false
      → is_kept c ≡ false
      → Typed t s
      → Typed (c ∷ t) s
  capital : {t s : Str} (c : ℕ) → is_kept c ≡ true → Typed t s → Typed (c ∷ t) (c ∷ s)
  small :
      {t s : Str} (c : ℕ) → in_range b'A' b'Z' c ≡ true → Typed t s → Typed ((c + 32) ∷ t) (c ∷ s)

upper_separator :
    (other : ℕ → Str) (c : ℕ)
    → c < 128
    → in_range b'a' b'z' c ≡ false
    → is_kept c ≡ false
    → upper other c ≡ c ∷ []
unfolding upper
upper_separator other c h k l = ground arith

upper_small :
    (other : ℕ → Str) (c : ℕ) → in_range b'A' b'Z' c ≡ true → upper other (c + 32) ≡ c ∷ []
unfolding upper
upper_small other c h = ground arith

-- However a code is typed, normalising gives the code.
pub normalize_code-Typed : (other : ℕ → Str) {t s : Str} → Typed t s → normalize_code other t ≡ s
unfolding normalize_code to_upper_case
normalize_code-Typed other nothing = refl
normalize_code-Typed other (separator c h k l typed) =
    rw (upper_separator other c h k l) (rw l (normalize_code-Typed other typed))
normalize_code-Typed other (capital c h typed) =
    rw (upper_kept other c h) (rw h (ap (λ r. c ∷ r) (normalize_code-Typed other typed)))
normalize_code-Typed other (small c h typed) =
    let kept : is_kept c ≡ true = ground arith in
    rw (upper_small other c h) (rw kept (ap (λ r. c ∷ r) (normalize_code-Typed other typed)))

-- Behind a list whose elements all pass a test stands no other character.
printed-all :
    (s : Str) (k : ℕ)
    → k < length s
    → all is_code_char s ≡ true
    → (c : ℕ) × (printed (get_elem? s k) ≡ c ∷ []) × (is_code_char c ≡ true)
printed-all [] k lt h = absurd (omega arith)
printed-all (c ∷ s) zero lt h = (c, refl, ground arith)
printed-all (c ∷ s) (suc k) lt h = printed-all s k (omega arith) (ground arith)

code_char_lem : (v : ℕ) → (c : ℕ) × (code_char v ≡ c ∷ []) × (is_code_char c ≡ true)
unfolding code_char
code_char_lem v = printed-all code_alphabet (v % 32) (omega arith) refl

random_code-repeats :
    (vs : List ℕ)
    → (length (random_code vs) ≡ length vs) × (all is_code_char (random_code vs) ≡ true)
unfolding random_code
random_code-repeats [] = (refl, refl)
random_code-repeats (v ∷ vs) =
    let (c, e, h) = code_char_lem v in
    let (l, a) = random_code-repeats vs in rw e (ap suc l, rw h a)

all_kept_code : (s : Str) → all is_code_char s ≡ true → all is_kept s ≡ true
all_kept_code [] h = refl
all_kept_code (c ∷ s) h = ground (arith, all_kept_code s)

-- A code made from six random bytes passes the code's pattern and is not changed by normalising.
random_code-is_code :
    (other : ℕ → Str) (vs : List ℕ)
    → length vs ≡ 6
    → (is_code (random_code vs) ≡ true) × (normalize_code other (random_code vs) ≡ random_code vs)
unfolding repeats
random_code-is_code other vs h =
    let (l, a) = random_code-repeats vs in
    (ground arith, normalize_code_kept other _ (all_kept_code (random_code vs) a))

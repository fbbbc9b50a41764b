-- ===== src/Signaling/Room/Pairing/Tickets.antt =====
-- A ticket is accepted after its claim, and once.
use laptop_as_a_second_monit.Common.{
  ℕ, suc, ◌+◌, ◌≤◌, ◌<◌, ◌≡◌, refl, ap, ◌≢◌, Bool, true, false, none, some, List, [], ◌∷◌, ◌++◌,
  Str, ltb, arith, All, Bool-cases, Option-cases, inl, inr, length, filter, any,
}
use laptop_as_a_second_monit.Protocol.Message.{paired}
use laptop_as_a_second_monit.Protocol.Hex.{Digest, sha256_hex}
use laptop_as_a_second_monit.Protocol.Hex.Laws.{IsByte, sha256_hex-is_hash}
use laptop_as_a_second_monit.Protocol.Pattern.{is_hex_digit, repeats_parts}
use laptop_as_a_second_monit.Signaling.Hash.{timing_safe_equal_hex}
use laptop_as_a_second_monit.Signaling.Hash.Laws.{timing_safe_equal_hex_iff}
use laptop_as_a_second_monit.Signaling.Room.State.{
  Room, Input, Stored, max_tickets, ticket_ttl, unexpired, or_empty,
}
use laptop_as_a_second_monit.Signaling.Room.Pairing.{
  pairing_failure, remove_first, consume_ticket, shift_to, issue_ticket, claim,
}

module _ {ℓ} {A : Type ℓ} where
  pub length-shift_to : (n : ℕ) (xs : List A) → length (shift_to n xs) ≤ n
  unfolding shift_to
  length-shift_to n [] = omega arith
  length-shift_to n (x ∷ xs) = ground (arith, length-shift_to n xs)

  -- The newest element stays.
  shift_to_last :
      (n : ℕ) (xs : List A) (x : A)
      → 0 < n
      → (ys : List A) × (shift_to n (xs ++ x ∷ []) ≡ ys ++ x ∷ [])
  unfolding shift_to
  shift_to_last n [] x h = ([], ground arith)
  shift_to_last n (z ∷ xs) x h = elim (Bool-cases (ltb n (length (z ∷ (xs ++ x ∷ []))))) [
    | inl e ↦ let (ys, k) = shift_to_last n xs x h in (ys, rw e k)
    | inr e ↦ (z ∷ xs, rw e)
  ]

  any_last : (p : A → Bool) (xs : List A) (x : A) → p x ≡ true → any p (xs ++ x ∷ []) ≡ true
  any_last p [] x h = rw h
  any_last p (y ∷ xs) x h = ground (arith, any_last p xs x h)

  remove_first-any : (p : A → Bool) (xs : List A) → any p xs ≡ true → remove_first p xs ≢ none
  unfolding remove_first
  remove_first-any p [] h = cc
  remove_first-any p (x ∷ xs) h = ground (arith, remove_first-any p xs)

  -- Elements that a test does not find are not removed, and one of those it finds is.
  remove_first-filter :
      (p : A → Bool) (xs : List A) {ys : List A}
      → remove_first p xs ≡ some ys
      → length (filter p xs) ≡ suc (length (filter p ys))
  unfolding remove_first
  remove_first-filter p [] h = cc
  remove_first-filter p (x ∷ xs) {ys} h = elim (Bool-cases (p x)) [
    | inl e ↦ let same : xs ≡ ys = ground arith in rw e (ap (λ l. suc (length (filter p l))) same)
    | inr e ↦ elim (Option-cases (remove_first p xs)) [
      | inl o ↦ absurd (ground arith)
      | inr (zs, o) ↦
          let same : x ∷ zs ≡ ys = ground arith in
          rw e (rw (← same) (rw e (remove_first-filter p xs o)))
    ]
  ]

  remove_first-none :
      (p : A → Bool) (xs : List A) → remove_first p xs ≡ none → length (filter p xs) ≡ 0
  unfolding remove_first
  remove_first-none p [] h = refl
  remove_first-none p (x ∷ xs) h = ground (arith, remove_first-none p xs)

  none_left : (p : A → Bool) (xs : List A) → length (filter p xs) ≡ 0 → remove_first p xs ≡ none
  unfolding remove_first
  none_left p [] h = refl
  none_left p (x ∷ xs) h = ground (arith, none_left p xs)

  filter-filter_le :
      (p q : A → Bool) (xs : List A) → length (filter p (filter q xs)) ≤ length (filter p xs)
  filter-filter_le p q [] = omega arith
  filter-filter_le p q (x ∷ xs) = ground (arith, filter-filter_le p q xs)

module _ (digest : Digest) (ticket : Str) where
  -- The stored values that a ticket fits.
  abbrev pub fits : Stored → Bool
  fits t = timing_safe_equal_hex t.hash (sha256_hex digest ticket)

  -- The unexpired stored tickets that a ticket fits.
  abbrev pub held : ℕ → Room → List Stored
  held now r = filter fits (unexpired now (or_empty r.tickets))

  -- What the tickets are after a ticket has been presented.
  pub consume_ticket_unused :
      (now : ℕ) (r : Room)
      → remove_first fits (unexpired now (or_empty r.tickets)) ≡ none
      → or_empty (consume_ticket digest now ticket r).0.tickets ≡ unexpired now (or_empty r.tickets)
  unfolding consume_ticket
  consume_ticket_unused now r h = ground arith

  pub consume_ticket_used :
      (now : ℕ) (r : Room) (rest : List Stored)
      → remove_first fits (unexpired now (or_empty r.tickets)) ≡ some rest
      → or_empty (consume_ticket digest now ticket r).0.tickets ≡ rest
  unfolding consume_ticket
  consume_ticket_used now r rest h = ground arith

  consume_ticket_left :
      (now later : ℕ) (r : Room)
      → length (held now r) ≤ 1
      → length (held later (consume_ticket digest now ticket r).0) ≡ 0
  consume_ticket_left now later r h =
      elim (Option-cases (remove_first fits (unexpired now (or_empty r.tickets)))) [
        | inl o ↦ rw (consume_ticket_unused now r o) (
            omega (
              arith,
              remove_first-none fits (unexpired now (or_empty r.tickets)) o,
              filter-filter_le fits (λ c. ltb later c.expires) (unexpired now (or_empty r.tickets)),
            ))
        | inr (rest, o) ↦ rw (consume_ticket_used now r rest o) (
            omega (
              arith,
              remove_first-filter fits (unexpired now (or_empty r.tickets)) o,
              filter-filter_le fits (λ c. ltb later c.expires) rest,
            ))
      ]

  -- A ticket that fits an unexpired one is accepted.
  pub consume_ticket-any :
      (now : ℕ) (r : Room)
      → any fits (unexpired now (or_empty r.tickets)) ≡ true
      → (consume_ticket digest now ticket r).1 ≡ true
  unfolding consume_ticket
  consume_ticket-any now r h =
      ground (arith, remove_first-any fits (unexpired now (or_empty r.tickets)) h)

  consume_ticket_of_none :
      (now : ℕ) (r : Room)
      → length (held now r) ≡ 0
      → (consume_ticket digest now ticket r).1 ≡ false
  unfolding consume_ticket
  consume_ticket_of_none now r h =
      ground (arith, none_left fits (unexpired now (or_empty r.tickets)) h)

  -- A ticket that fits at most one stored ticket cannot be used after it has been presented.
  pub consume_ticket_once :
      (now later : ℕ) (r : Room)
      → length (held now r) ≤ 1
      → (consume_ticket digest later ticket (consume_ticket digest now ticket r).0).1 ≡ false
  consume_ticket_once now later r h =
      consume_ticket_of_none later (consume_ticket digest now ticket r).0
        (consume_ticket_left now later r h)

-- The stored tickets after a claim that was answered by a ticket.
claim_tickets :
    (digest : Digest) (input : Input) (code_hash : Str) (r : Room) {room ticket : Str}
    → (claim digest input code_hash r).1 ≡ paired room ticket
    → (ticket ≡ input.random_hex)
      × (or_empty (claim digest input code_hash r).0.tickets
          ≡ shift_to max_tickets (
              unexpired input.now (or_empty r.tickets)
              ++ record {
                hash = sha256_hex digest input.random_hex;
                expires = input.now + ticket_ttl;
              }
                ∷ []))
unfolding claim pairing_failure issue_ticket
claim_tickets digest input code_hash r h = ground arith

filter_last {ℓ} :
    {A : Type ℓ} (p : A → Bool) (xs : List A) (x : A)
    → p x ≡ true
    → filter p (xs ++ x ∷ []) ≡ filter p xs ++ x ∷ []
filter_last p [] x h = rw h
filter_last p (y ∷ xs) x h = ground (arith, filter_last p xs x h)

-- What the model relies on of SHA-256: a digest is 32 bytes.
abbrev pub IsDigest : Digest → Type 0
IsDigest digest = (text : Str) → (length (digest text) ≡ 32) × All IsByte (digest text)

-- A text fits its own hash.
pub fits_own_hash :
    (digest : Digest) (text : Str)
    → IsDigest digest
    → timing_safe_equal_hex (sha256_hex digest text) (sha256_hex digest text) ≡ true
fits_own_hash digest text sha =
    let hash = sha256_hex digest text in
    let (l, d) =
      repeats_parts is_hex_digit 64 hash
        (sha256_hex-is_hash digest text (sha text).0 (sha text).1).0 in
    (timing_safe_equal_hex_iff hash hash d d (omega arith) (omega arith)).1 refl

-- A ticket that a claim hands out fits a stored one for thirty seconds, however many were stored.
pub claim-fits :
    (digest : Digest) (input : Input) (code_hash : Str) (r : Room) (later : ℕ) {room ticket : Str}
    → IsDigest digest
    → (claim digest input code_hash r).1 ≡ paired room ticket
    → later < input.now + ticket_ttl
    → any
        (fits digest ticket)
        (unexpired later (or_empty (claim digest input code_hash r).0.tickets))
      ≡ true
claim-fits digest input code_hash r later sha h k =
    let issued : Stored = record {
      hash = sha256_hex digest input.random_hex;
      expires = input.now + ticket_ttl;
    } in
    let (same, stored) = claim_tickets digest input code_hash r h in
    let (ys, kept) =
      shift_to_last max_tickets (unexpired input.now (or_empty r.tickets)) issued (omega arith) in
    let valid : ltb later issued.expires ≡ true = ground arith in
    rw (same, stored, kept, filter_last (λ (c : Stored). ltb later c.expires) ys issued valid)
      (any_last (fits digest input.random_hex) (unexpired later ys) issued
        (fits_own_hash digest input.random_hex sha))

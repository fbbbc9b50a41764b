-- ===== src/Signaling/Room/Pairing.antt =====
-- Codes, tickets, tokens and the throttle of a `Room`. `Date.now()` is read once for a call: the
-- clock of the worker stands still while a handler computes.
pub mod Throttle
pub mod Tickets
use laptop_as_a_second_monit.Common.{
  ℕ, ◌+◌, ◌-◌, Bool, true, false, ◌&&◌, Option, none, some, List, [], ◌∷◌, ◌++◌, Str, codes, length,
  ltb, leb, any, if◌then◌else◌,
}
use laptop_as_a_second_monit.Protocol.Message.{Role, host, viewer, PairResponse, paired, pair_error}
use laptop_as_a_second_monit.Protocol.Hex.{Digest, sha256_hex}
use laptop_as_a_second_monit.Signaling.Hash.{timing_safe_equal_hex}
use laptop_as_a_second_monit.Signaling.Room.State.{
  ticket_ttl, max_tickets, max_pair_failures, Stored, Failures, Room, Input, peers, is_empty,
  unexpired, or_empty,
}

unfoldable pub active_codes : ℕ → Room → List Stored
active_codes now r = unexpired now (or_empty r.codes)

unfoldable pub code_valid : ℕ → Str → Room → Bool
code_valid now hash r = any (λ c. timing_safe_equal_hex c.hash hash) (active_codes now r)

unfoldable pub throttled : ℕ → Room → Bool
throttled now r = elim r.failures [
  | none ↦ false
  | some f ↦ leb (now - f.window) 60000 && ltb max_pair_failures f.count
]

-- The failures after one more, which start anew after a minute.
abbrev pub next_failures : ℕ → Option Failures → Failures
next_failures now none = record { count = 1; window = now }
next_failures now (some f) =
    if ltb 60000 (now - f.window)
    then record { count = 1; window = now }
    else record { count = f.count + 1; window = f.window }

unfoldable pub pairing_failure : ℕ → Room → Room × Bool
pairing_failure now r =
    let f = next_failures now r.failures in
    (record r { failures = some f }, ltb max_pair_failures f.count)

-- `splice` of the first element that passes a test; `none` where `findIndex` finds none.
unfoldable pub remove_first {ℓ} : {A : Type ℓ} → (A → Bool) → List A → Option (List A)
remove_first p [] = none
remove_first p (x ∷ xs) = elim (p x) [
  | true ↦ some xs
  | false ↦ elim (remove_first p xs) [ none ↦ none | some ys ↦ some (x ∷ ys) ]
]

unfoldable pub consume_ticket : Digest → ℕ → Str → Room → Room × Bool
consume_ticket digest now ticket r =
    let held = unexpired now (or_empty r.tickets) in
    elim (remove_first (λ t. timing_safe_equal_hex t.hash (sha256_hex digest ticket)) held) [
      | none ↦ (record r { tickets = some held }, false)
      | some rest ↦ (record r { tickets = some rest }, true)
    ]

unfoldable pub token_valid : Digest → ℕ → Str → Room → Bool
token_valid digest now token r = elim r.viewer_token [
  | none ↦ false
  | some t ↦
      if leb t.expires now then false else timing_safe_equal_hex t.hash (sha256_hex digest token)
]

-- `while (tickets.length > n) tickets.shift()`
unfoldable pub shift_to {ℓ} : {A : Type ℓ} → ℕ → List A → List A
shift_to n [] = []
shift_to n (x ∷ xs) = if ltb n (length (x ∷ xs)) then shift_to n xs else x ∷ xs

-- `claim`, after the throttle and the code have been checked.
unfoldable pub issue_ticket : Digest → Input → Room → Room × PairResponse
unfolding shift_to
issue_ticket digest input r =
    if is_empty (peers host r.sockets)
    then (r, pair_error (codes "host-unavailable"))
    else if is_empty (peers viewer r.sockets)
    then (let ticket : Stored = record {
      hash = sha256_hex digest input.random_hex;
      expires = input.now + ticket_ttl;
    } in
        let tickets =
          shift_to max_tickets (unexpired input.now (or_empty r.tickets) ++ ticket ∷ []) in
        (record r { tickets = some tickets }, paired r.name input.random_hex))
    else (r, pair_error (codes "viewer-occupied"))

unfoldable pub claim : Digest → Input → Str → Room → Room × PairResponse
claim digest input code_hash r =
    if throttled input.now r
    then (r, pair_error (codes "rate-limit"))
    else if code_valid input.now code_hash r
    then issue_ticket digest input r
    else (let (r', throttle) = pairing_failure input.now r in
        (r', pair_error (if throttle then codes "rate-limit" else codes "invalid-code")))

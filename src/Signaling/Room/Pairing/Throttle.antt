-- ===== src/Signaling/Room/Pairing/Throttle.antt =====
-- How many wrong codes may be tried.
use laptop_as_a_second_monit.Common.{
  ℕ, ◌+◌, ◌-◌, ◌≤◌, ◌≡◌, Bool, false, Option, none, some, Str, codes, str_eq, leb, if◌then◌else◌,
  arith,
}
use laptop_as_a_second_monit.Protocol.Message.{PairResponse, paired, pair_error}
use laptop_as_a_second_monit.Protocol.Hex.{Digest}
use laptop_as_a_second_monit.Signaling.Room.State.{Failures, Room, Input}
use laptop_as_a_second_monit.Signaling.Room.Pairing.{
  throttled, pairing_failure, issue_ticket, claim,
}

-- The answer after a failure says whether the throttle is on from then on.
pub pairing_failure-throttled :
    (now : ℕ) (r : Room) → (pairing_failure now r).1 ≡ throttled now (pairing_failure now r).0
unfolding pairing_failure throttled
pairing_failure-throttled now r = ground arith

abbrev pub is_invalid_code : PairResponse → Bool
is_invalid_code (pair_error e) = str_eq e (codes "invalid-code")
is_invalid_code (paired room ticket) = false

-- How many wrong codes are left in the minute that begins at `start`.
abbrev pub budget : ℕ → Option Failures → ℕ
budget start none = 10
budget start (some f) = if leb start f.window then 10 - f.count else (10 - f.count) + 10

-- A minute that begins at `start`.
abbrev pub IsWithin : ℕ → ℕ → Type 0
IsWithin start now = (start ≤ now) × (now ≤ start + 60000)

issue_ticket_failures :
    (digest : Digest) (input : Input) (r : Room)
    → ((issue_ticket digest input r).0.failures ≡ r.failures)
      × (is_invalid_code (issue_ticket digest input r).1 ≡ false)
unfolding issue_ticket str_eq
issue_ticket_failures digest input r = ground arith

pub claim-budget :
    (digest : Digest) (input : Input) (code_hash : Str) (r : Room) (start : ℕ)
    → IsWithin start input.now
    → (if is_invalid_code (claim digest input code_hash r).1 then 1 else 0)
        + budget start (claim digest input code_hash r).0.failures
      ≤ budget start r.failures
unfolding claim throttled pairing_failure str_eq
claim-budget digest input code_hash r start h = ground (arith, issue_ticket_failures digest input r)

pub pairing_failure-budget :
    (now : ℕ) (r : Room) (start : ℕ)
    → IsWithin start now
    → budget start (pairing_failure now r).0.failures ≤ budget start r.failures
unfolding pairing_failure
pairing_failure-budget now r start h = ground arith

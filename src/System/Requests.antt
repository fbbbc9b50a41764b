-- ===== src/System/Requests.antt =====
-- What the worker does with the two requests of a viewer.
use laptop_as_a_second_monit.Common.{
  ℕ, ◌≡◌, refl, ap, ◌∙◌, ◌≢◌, true, false, not, all, Option, some, [], ◌∷◌, ◌++◌, Str, codes,
  str_eq, length, arith, ◌==◌,
}
use laptop_as_a_second_monit.Protocol.Pattern.{
  is_room, is_code, is_token, is_hex_digit, repeats_parts,
}
use laptop_as_a_second_monit.Protocol.Code.{normalize_code}
use laptop_as_a_second_monit.Protocol.Hex.{Digest, sha256_hex}
use laptop_as_a_second_monit.Signaling.Directory.{lookup}
use laptop_as_a_second_monit.Signaling.Room.State.{Input as WorkerInput}
use laptop_as_a_second_monit.Signaling.Worker.{
  World, worker_fetch, claim_room, is_denied, open_room, upgrade_room, requested_room, room_of_path,
  strip, is_filled, is_web_socket, lower_case,
}
use laptop_as_a_second_monit.Signaling.Worker.Pair.{pair-pair_hash, pair_hash-claim_room}
use laptop_as_a_second_monit.System.{pair_request, room_request}

-- A hexadecimal text has no slash.
no_slash : (s : Str) → all is_hex_digit s ≡ true → all (λ c. not (c == b'/')) s ≡ true
no_slash [] h = refl
no_slash (c ∷ s) h = ground (arith, no_slash s)

room_filled : (s : Str) → length s ≡ 32 → is_filled s ≡ true
room_filled [] h = absurd (omega arith)
room_filled (c ∷ s) h = refl

pub room_named : (room : Str) → is_room room ≡ true → room ≢ []
room_named room h e =
    let (l, d) = repeats_parts is_hex_digit 32 room h in absurd (omega (arith, l, ap length e))

pub token_named : (token : Str) → is_token token ≡ true → token ≢ []
token_named token h e =
    let (l, d) = repeats_parts is_hex_digit 64 token h in absurd (omega (arith, l, ap length e))

room_of_room :
    (room : Str) → is_room room ≡ true → room_of_path (codes "/room/" ++ room) ≡ some room
unfolding room_of_path strip
room_of_room room h =
    let (l, d) = repeats_parts is_hex_digit 32 room h in
    rw (room_filled room l, no_slash room d) refl

requested_of_room :
    (origin : Option Str) (room : Str)
    → is_room room ≡ true
    → requested_room (room_request origin room) ≡ some room
unfolding str_eq
requested_of_room origin room h = rw (room_of_room room h, requested_room, h) refl

-- The worker opens the room that a viewer asks for.
open_requested :
    (origin : Option Str) (now : ℕ) (room : Str) (w : World)
    → is_room room ≡ true
    → upgrade_room now (room_request origin room) w ≡ open_room now room w
unfolding upgrade_room str_eq is_web_socket lower_case
open_requested origin now room w h = rw (requested_of_room origin room h, upgrade_room) refl

pub fetch_room :
    (upper : ℕ → Str) (digest : Digest) (allowed room : Str) (origin : Option Str)
    (input : WorkerInput) (w : World)
    → is_room room ≡ true
    → is_denied allowed origin ≡ false
    → worker_fetch upper digest allowed true input (room_request origin room) w
      ≡ open_room input.now room w
unfolding worker_fetch str_eq
fetch_room upper digest allowed room origin input w h k =
    rw k (open_requested origin input.now room w h)

-- The worker claims a ticket in the room that the directory names.
pub fetch_pair :
    (upper : ℕ → Str) (digest : Digest) (allowed code name : Str) (origin : Option Str)
    (input : WorkerInput) (w : World)
    → is_code code ≡ true
    → normalize_code upper code ≡ code
    → is_denied allowed origin ≡ false
    → lookup input.now (w.directory (sha256_hex digest code)) ≡ some name
    → name ≢ []
    → worker_fetch upper digest allowed true input (pair_request origin code) w
      ≡ claim_room digest allowed input (pair_request origin code) (sha256_hex digest code) name w
unfolding worker_fetch str_eq
fetch_pair upper digest allowed code name origin input w format same k entry given =
    let q = pair_request origin code in
    simp k (
      pair-pair_hash upper digest allowed input q code w format refl same
      ∙ pair_hash-claim_room digest allowed input q (sha256_hex digest code) name w entry given)

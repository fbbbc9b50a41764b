-- ===== src/Signaling/Tests/Routing.antt =====
-- The properties of the worker's routes at concrete requests.
use laptop_as_a_second_monit.Common.{
  ℕ, ◌≡◌, refl, true, false, some, [], ◌∷◌, Str, codes, arith, any, str_eq, ◌++◌,
}
use laptop_as_a_second_monit.Protocol.Pattern.{is_code, repeats}
use laptop_as_a_second_monit.Protocol.Code.{normalize_code, to_upper_case, upper}
use laptop_as_a_second_monit.Protocol.Code.Laws.{Typed, nothing, separator, capital, small}
use laptop_as_a_second_monit.Protocol.Hex.{sha256_hex}
use laptop_as_a_second_monit.Protocol.Message.{paired}
use laptop_as_a_second_monit.Signaling.Directory.{empty, lookup}
use laptop_as_a_second_monit.Signaling.Room.Pairing.{throttled}
use laptop_as_a_second_monit.Signaling.Room.Lifecycle.{accept}
use laptop_as_a_second_monit.Signaling.Worker.{
  World, Request, json, is_allowed, split_commas, cors, json_response, pair, pair_code, pair_hash,
  worker_fetch, room_of_path, strip, upgrade_room, is_web_socket, lower_case, open_room,
}
use laptop_as_a_second_monit.Signaling.Worker.Routes.{
  join_commas, is_allowed-join, worker_fetch-allow_origin, OpensRoom, worker_fetch-OpensRoom,
}
use laptop_as_a_second_monit.Signaling.Worker.Pair.{host_registers, pair-registered}
use laptop_as_a_second_monit.Signaling.Tests.{
  zero_digest, zero_digest-IsDigest, zero_hash, zero_room, at, waiting_room,
}

abbrev unchanged : ℕ → Str
unchanged c = c ∷ []

abbrev first_origin : Str
first_origin = codes "a.b"

abbrev second_origin : Str
second_origin = codes "c"

is_allowed-join_example :
    is_allowed (join_commas first_origin (second_origin ∷ [])) (codes "c")
    ≡ any (str_eq (codes "c")) (first_origin ∷ second_origin ∷ [])
is_allowed-join_example =
    is_allowed-join first_origin (second_origin ∷ []) (codes "c")
      (omega arith, (omega arith, (omega arith, tt))) ((omega arith, tt), tt)

abbrev the_world : World
the_world = record { directory = λ hash. empty; rooms = λ name. waiting_room }

abbrev request_of : Str → Str → Request
request_of method path = record {
  method = method;
  pathname = path;
  search = [];
  origin = some first_origin;
  upgrade = some (codes "WebSocket");
  code = some (codes "k7m-4q2");
}

abbrev pair_request : Request
pair_request = request_of (codes "POST") (codes "/pair")

abbrev room_request : Request
room_request = request_of (codes "GET") (codes "/room/" ++ zero_room)

pair_origin :
    (worker_fetch unchanged zero_digest first_origin true
      (at 1)
      pair_request
      the_world).1.allow_origin
    ≡ some first_origin
unfolding worker_fetch is_allowed split_commas str_eq pair pair_code normalize_code to_upper_case
    upper repeats pair_hash json_response cors lookup
pair_origin = refl

worker_fetch-allow_origin_example :
    (pair_request.origin ≡ some first_origin) × (is_allowed first_origin first_origin ≡ true)
worker_fetch-allow_origin_example =
    worker_fetch-allow_origin unchanged zero_digest first_origin true (at 1) pair_request the_world
      first_origin pair_origin

opened :
    (worker_fetch unchanged zero_digest first_origin true (at 1) room_request the_world).1.status
    ≡ 101
unfolding worker_fetch is_allowed split_commas str_eq upgrade_room room_of_path strip repeats
    is_web_socket lower_case open_room accept
opened = refl

worker_fetch-OpensRoom_example : OpensRoom first_origin room_request
worker_fetch-OpensRoom_example =
    worker_fetch-OpensRoom unchanged zero_digest first_origin true (at 1) room_request the_world
      opened

Typed-code : Typed (codes "k7m-4q2") (codes "K7M4Q2")
Typed-code = small b'K' refl (
    capital b'7' refl (
      small b'M' refl (
        separator b'-' (omega arith) refl refl
          (capital b'4' refl (small b'Q' refl (capital b'2' refl nothing))))))

code_fits : is_code (codes "K7M4Q2") ≡ true
unfolding repeats
code_fits = refl

not_throttled : throttled 1000 waiting_room ≡ false
unfolding throttled
not_throttled = refl

pair-registered_example :
    (pair unchanged zero_digest first_origin true (at 1000) pair_request (
      host_registers 500 zero_room
        (record { hash = sha256_hex zero_digest (codes "K7M4Q2"); ttl_ms = 135000 })
        the_world)).1
    ≡ record {
      status = 200;
      body = json (paired zero_room zero_hash);
      allow_origin = cors first_origin (some first_origin);
    }
pair-registered_example =
    pair-registered unchanged zero_digest first_origin zero_room (codes "K7M4Q2") (codes "k7m-4q2")
      500 135000 (at 1000) pair_request the_world zero_digest-IsDigest code_fits Typed-code refl
      refl refl (λ e. cc) (omega arith) not_throttled refl refl

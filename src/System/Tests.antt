-- ===== src/System/Tests.antt =====
-- The way of a viewer into a room, at concrete values.
use laptop_as_a_second_monit.Common.{
  ℕ, ◌≡◌, refl, true, some, [], ◌∷◌, Str, codes, length, arith, none, str_eq, false, ◌≤◌,
}
use laptop_as_a_second_monit.Protocol.Json.{object}
use laptop_as_a_second_monit.Protocol.Code.Laws.{Typed, nothing, separator, capital, small}
use laptop_as_a_second_monit.Protocol.Hex.{sha256_hex}
use laptop_as_a_second_monit.Protocol.Message.{ClientMessage, viewer, max_message}
use laptop_as_a_second_monit.Protocol.Encode.{encode}
use laptop_as_a_second_monit.Signaling.Directory.{empty}
use laptop_as_a_second_monit.Signaling.Room.State.{peers, attachment_of}
use laptop_as_a_second_monit.Signaling.Room.Lifecycle.Admission.{HasPlace}
use laptop_as_a_second_monit.Signaling.Worker.{World, is_denied, is_allowed, split_commas}
use laptop_as_a_second_monit.Signaling.Worker.Pair.{host_registers}
use laptop_as_a_second_monit.Signaling.Tests.{
  zero_digest, zero_digest-IsDigest, zero_hash, zero_room, at, waiting_room,
}
use laptop_as_a_second_monit.Viewer.Session.State.{Session, Input}
use laptop_as_a_second_monit.Viewer.Stage.State.{new_stage}
use laptop_as_a_second_monit.Viewer.Page.State.{Page, Browser}
use laptop_as_a_second_monit.System.{Moments, join}
use laptop_as_a_second_monit.System.Admission.{presented, join-IsViewer}
use laptop_as_a_second_monit.Protocol.Pattern.{is_code, is_room, is_token, repeats}
use laptop_as_a_second_monit.Protocol.Parse.{utf8_length}
use laptop_as_a_second_monit.Signaling.Room.Pairing.{throttled}

abbrev unchanged : ℕ → Str
unchanged c = c ∷ []

abbrev the_origin : Str
the_origin = codes "a.b"

abbrev print : ClientMessage → Str
print m = codes "{}"

-- A browser that knows one message only.
abbrev the_browser : Browser
the_browser = record {
  parse_url = λ v. some (record { protocol = codes "https:"; hostname = codes "b"; bare = v });
  encode = λ s. s;
  parse_json = λ raw. some (object (encode (presented zero_hash)));
  print_saved = λ s. [];
  upper = unchanged;
  pathname = codes "/";
  is_https = true;
  has_callback = true;
}

abbrev the_page : Page
the_page = record {
  server = codes "https://b/";
  code = codes "k7m-4q2";
  code_invalid = false;
  message = [];
  message_error = false;
  connect_disabled = false;
  cancel_hidden = true;
  pairing_hidden = false;
  fullscreen_checked = true;
  test_pairing = [];
  on_stage = false;
  last_status = [];
  last_error = [];
  saved = none;
  stored = some none;
  stores = record { cookies = none; items = none };
  session = none;
  sessions = λ i. none;
  next_session = 0;
  pattern_timer = false;
  stage = new_stage true;
}

abbrev moment : Input
moment = record {
  now = 900;
  wall = 900;
  local_sdp = none;
  remote_ok = true;
  accepts = λ c. true;
  code_hash = [];
}

abbrev moments : Moments
moments = record { start = moment; pair = at 1000; upgrade = at 1100; auth = at 1200 }

abbrev the_world : World
the_world = record { directory = λ hash. empty; rooms = λ name. waiting_room }

Typed-code : Typed (codes "k7m-4q2") (codes "K7M4Q2")
Typed-code = small b'K' refl (
    capital b'7' refl (
      small b'M' refl (
        separator b'-' (omega arith) refl refl
          (capital b'4' refl (small b'Q' refl (capital b'2' refl nothing))))))

code_fits : is_code (codes "K7M4Q2") ≡ true
unfolding repeats
code_fits = refl

room_fits : is_room zero_room ≡ true
unfolding repeats
room_fits = refl

ticket_fits : is_token zero_hash ≡ true
unfolding repeats
ticket_fits = refl

origin_allowed : is_denied the_origin (some the_origin) ≡ false
unfolding is_allowed split_commas str_eq
origin_allowed = refl

not_throttled : throttled 1000 waiting_room ≡ false
unfolding throttled
not_throttled = refl

has_place : HasPlace waiting_room
unfolding attachment_of
has_place = record { few = omega arith; unnamed = refl }

short : utf8_length (print (presented zero_hash)) ≤ max_message
unfolding utf8_length
short = omega arith

join-IsViewer_example :
    (q : Session × World) × (join the_browser zero_digest the_origin
        (some the_origin)
        print
        moments
        the_page
        (host_registers 500 zero_room
          (record { hash = sha256_hex zero_digest (codes "K7M4Q2"); ttl_ms = 135000 })
          the_world)
      ≡ some q)
    × (length (peers viewer (q.1.rooms zero_room).sockets) ≡ 1)
unfolding str_eq
join-IsViewer_example =
    join-IsViewer the_browser zero_digest the_origin (some the_origin) print moments the_page
      (codes "K7M4Q2") zero_room 500 135000 the_world zero_digest-IsDigest code_fits Typed-code refl
      refl room_fits ticket_fits origin_allowed refl not_throttled refl refl has_place short refl
      (omega arith) (omega arith) (omega arith) (omega arith)

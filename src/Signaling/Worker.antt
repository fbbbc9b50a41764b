-- ===== src/Signaling/Worker.antt =====
-- The worker's own `fetch` of signaling/src/index.ts, over the objects that it names: the directory
-- entries by the hash of a code, and the rooms by their name. The rate limit of the platform and the
-- time and random texts are its input, as are SHA-256 and the Unicode table of `toUpperCase`.
pub mod Routes
pub mod Pair
use laptop_as_a_second_monit.Common.{
  ℕ, ◌+◌, Bool, true, false, ◌&&◌, ◌||◌, not, Option, none, some, List, [], ◌∷◌, ◌++◌, Str, codes,
  str_eq, starts_with, any, all, in_range, ◌==◌, if◌then◌else◌, is_none,
}
use laptop_as_a_second_monit.Protocol.Message.{PairResponse, paired, pair_error}
use laptop_as_a_second_monit.Protocol.Pattern.{is_code, is_room}
use laptop_as_a_second_monit.Protocol.Code.{normalize_code}
use laptop_as_a_second_monit.Protocol.Hex.{Digest, sha256_hex}
use laptop_as_a_second_monit.Signaling.Directory.{Directory, lookup, register as register_code}
use laptop_as_a_second_monit.Signaling.Room.State.{Room, Input, Effect, send, close, register}
use laptop_as_a_second_monit.Signaling.Room.Pairing.{claim}
use laptop_as_a_second_monit.Signaling.Room.Lifecycle.{accept, Upgrade, busy, accepted}

-- The objects, by name.
pub record World : Type 0 where
  pub directory : Str → Directory
  pub rooms : Str → Room

unfoldable pub update {ℓ} : {A : Type ℓ} → Str → A → (Str → A) → Str → A
update k v f j = if str_eq k j then v else f j

-- What the worker reads of a request. `code` is the string under that name in the JSON body, `none`
-- where the body is no JSON object with one.
pub record Request : Type 0 where
  pub method : Str
  pub pathname : Str
  pub search : Str
  pub origin : Option Str
  pub upgrade : Option Str
  pub code : Option Str

pub data Body : Type 0 where
  health no_body : Body
  plain : Str → Body
  json : PairResponse → Body

-- The headers that a test of the origin decides.
pub record Response : Type 0 where
  pub status : ℕ
  pub body : Body
  pub allow_origin : Option Str

-- `list.split(",")`
unfoldable pub split_commas : Str → List Str
split_commas [] = [] ∷ []
split_commas (c ∷ s) = elim (split_commas s) [
  | [] ↦ (c ∷ []) ∷ []
  | t ∷ ts ↦ if c == b',' then [] ∷ t ∷ ts else (c ∷ t) ∷ ts
]

-- `env.ALLOWED_ORIGINS.split(",").includes(origin)`
unfoldable pub is_allowed : Str → Str → Bool
is_allowed allowed origin = any (str_eq origin) (split_commas allowed)

abbrev pub is_filled : Str → Bool
is_filled [] = false
is_filled (_ ∷ _) = true

-- The `Access-Control-Allow-Origin` of `cors`.
unfoldable pub cors : Str → Option Str → Option Str
cors allowed none = none
cors allowed (some o) = if is_filled o && is_allowed allowed o then some o else none

unfoldable pub json_response : Str → Request → PairResponse → ℕ → Response
json_response allowed q body status = record {
  status = status;
  body = json body;
  allow_origin = cors allowed q.origin;
}

abbrev pub plain_response : Str → ℕ → Response
plain_response t status = record { status = status; body = plain t; allow_origin = none }

abbrev pub pair_status : Str → ℕ
pair_status e =
    if str_eq e (codes "rate-limit")
    then 429
    else if str_eq e (codes "invalid-code")
    then 404
    else 409

unfoldable pub pair_response : Str → Request → PairResponse → Response
pair_response allowed q (pair_error e) = json_response allowed q (pair_error e) (pair_status e)
pair_response allowed q (paired room ticket) = json_response allowed q (paired room ticket) 200

-- The code that a request carries, normalised.
abbrev pub sent_code : (ℕ → Str) → Option Str → Str
sent_code other none = []
sent_code other (some s) = normalize_code other s

-- A claim on the room that the directory names for a code's hash.
unfoldable pub claim_room : Digest → Str → Input → Request → Str → Str → World → World × Response
claim_room digest allowed input q hash room w =
    let (r, answer) = claim digest input hash (w.rooms room) in
    (record w { rooms = update room r w.rooms }, pair_response allowed q answer)

abbrev pub refuse : Str → Request → Str → ℕ → Response
refuse allowed q e status = json_response allowed q (pair_error e) status

unfoldable pub pair_hash : Digest → Str → Input → Request → Str → World → World × Response
pair_hash digest allowed input q hash w = elim (lookup input.now (w.directory hash)) [
  | none ↦ (w, refuse allowed q (codes "invalid-code") 404)
  | some room ↦
      if is_filled room
      then claim_room digest allowed input q hash room w
      else (w, refuse allowed q (codes "invalid-code") 404)
]

unfoldable pub pair_code : (ℕ → Str) → Digest → Str → Input → Request → World → World × Response
pair_code other digest allowed input q w =
    let code = sent_code other q.code in
    if is_code code
    then pair_hash digest allowed input q (sha256_hex digest code) w
    else (w, refuse allowed q (codes "invalid-code") 404)

-- "/pair"; `within` is the verdict of the platform's rate limit for the client's address.
unfoldable pub pair : (ℕ → Str) → Digest → Str → Bool → Input → Request → World → World × Response
pair other digest allowed within input q w =
    if str_eq q.method (codes "OPTIONS")
    then (w, record { status = 204; body = no_body; allow_origin = cors allowed q.origin })
    else if str_eq q.method (codes "POST")
    then if within
      then pair_code other digest allowed input q w
      else (w, refuse allowed q (codes "rate-limit") 429)
    else (w, plain_response (codes "Method not allowed") 405)

-- The text behind a prefix.
unfoldable pub strip : Str → Str → Option Str
strip [] s = some s
strip (p ∷ ps) [] = none
strip (p ∷ ps) (c ∷ s) = if p == c then strip ps s else none

-- The match of `/^\/room\/([^/]+)$/`.
unfoldable pub room_of_path : Str → Option Str
room_of_path path = elim (strip (codes "/room/") path) [
  | none ↦ none
  | some s ↦ if is_filled s && all (λ c. not (c == b'/')) s then some s else none
]

-- A letter of a header's text in lower case (its characters are below 256).
abbrev pub lower : ℕ → ℕ
lower c = if in_range b'A' b'Z' c || in_range 0xc0 0xd6 c || in_range 0xd8 0xde c then c + 32 else c

unfoldable pub lower_case : Str → Str
lower_case [] = []
lower_case (c ∷ t) = lower c ∷ lower_case t

-- `headers.get("Upgrade")?.toLowerCase() === "websocket"`
unfoldable pub is_web_socket : Option Str → Bool
unfolding lower_case
is_web_socket none = false
is_web_socket (some s) = str_eq (lower_case s) (codes "websocket")

abbrev pub upgrade_response : Upgrade → Response
upgrade_response busy = plain_response (codes "Room busy") 429
upgrade_response (accepted i) = record { status = 101; body = no_body; allow_origin = none }

unfoldable pub open_room : ℕ → Str → World → World × Response
open_room now room w =
    let (r, answer) = accept now (w.rooms room) in
    (record w { rooms = update room r w.rooms }, upgrade_response answer)

-- The room of a request for one, where the method, the name and the query fit.
abbrev pub requested_room : Request → Option Str
requested_room q = elim (room_of_path q.pathname) [
  | none ↦ none
  | some room ↦
      if str_eq q.method (codes "GET") && is_room room && not (is_filled q.search)
      then some room
      else none
]

unfoldable pub upgrade_room : ℕ → Request → World → World × Response
upgrade_room now q w = elim (requested_room q) [
  | none ↦ (w, plain_response (codes "Not found") 404)
  | some room ↦
      if is_web_socket q.upgrade
      then open_room now room w
      else (w, plain_response (codes "WebSocket required") 426)
]

-- An origin that is given and not in the list.
abbrev pub is_denied : Str → Option Str → Bool
is_denied allowed none = false
is_denied allowed (some o) = is_filled o && not (is_allowed allowed o)

unfoldable pub worker_fetch :
    (ℕ → Str) → Digest → Str → Bool → Input → Request → World → World × Response
worker_fetch other digest allowed within input q w =
    if str_eq q.pathname (codes "/health")
    then (w, record { status = 200; body = health; allow_origin = none })
    else if is_denied allowed q.origin
    then (w, plain_response (codes "Origin denied") 403)
    else if str_eq q.pathname (codes "/pair")
    then pair other digest allowed within input q w
    else upgrade_room input.now q w

-- The registrations among what a room sends reach the directory.
unfoldable pub apply_effects : ℕ → List Effect → World → World
apply_effects now [] w = w
apply_effects now (register hash room ttl_ms ∷ es) w = apply_effects now es (record w {
  directory = update hash (register_code now room ttl_ms (w.directory hash)) w.directory;
})
apply_effects now (send i m ∷ es) w = apply_effects now es w
apply_effects now (close i code reason ∷ es) w = apply_effects now es w

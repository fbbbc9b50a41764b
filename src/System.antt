-- ===== src/System.antt =====
-- The page of viewer/src/main.ts with its session, and the worker of signaling/src/index.ts together:
-- what travels between the two when a viewer types a code. The printing of a message, the clocks and the
-- random texts are arguments.
pub mod Requests
pub mod Receiver
pub mod Admission
mod Tests
use laptop_as_a_second_monit.Common.{
  ℕ, true, false, Option, none, some, List, [], ◌∷◌, ◌++◌, Str, codes,
}
use laptop_as_a_second_monit.Protocol.Json.{Json}
use laptop_as_a_second_monit.Protocol.Hex.{Digest}
use laptop_as_a_second_monit.Protocol.Code.{normalize_code}
use laptop_as_a_second_monit.Protocol.Message.{ClientMessage, PairResponse}
use laptop_as_a_second_monit.Signaling.Room.State.{Input as WorkerInput}
use laptop_as_a_second_monit.Signaling.Room.Message.Dispatch.{text, web_socket_message}
use laptop_as_a_second_monit.Signaling.Worker.{World, Request, Body, json, update, worker_fetch}
use laptop_as_a_second_monit.Viewer.Page.State.{Page, Browser}
use laptop_as_a_second_monit.Viewer.Page.Run.{submit}
use laptop_as_a_second_monit.Viewer.Page.Submit.{requests}
use laptop_as_a_second_monit.Viewer.Session.State.{
  Session, by_code, Input, Effect, request_pair, connect, transmit,
}
use laptop_as_a_second_monit.Viewer.Session.State.Methods.{new_session}
use laptop_as_a_second_monit.Viewer.Session.Signals.{start, on_pair_response, on_open}

infixl 5 ◌>>=◌
abbrev pub ◌>>=◌ {ℓ κ} : {A : Type ℓ} {B : Type κ} → Option A → (A → Option B) → Option B
none >>= f = none
some a >>= f = f a

-- The one request for pairing among what the page does, and the first socket and the first message among
-- what a step of its session does.
abbrev pub only {ℓ} : {A : Type ℓ} → List A → Option A
only (x ∷ []) = some x
only _ = none

abbrev pub connected : List Effect → Option (ℕ × Option Str × Option Str)
connected [] = none
connected (connect i room ticket ∷ es) = some (i, room, ticket)
connected (_ ∷ es) = connected es

abbrev pub transmitted : List Effect → Option ClientMessage
transmitted [] = none
transmitted (transmit i m ∷ es) = some m
transmitted (_ ∷ es) = transmitted es

abbrev pub answered : Body → Option PairResponse
answered (json answer) = some answer
answered _ = none

-- The requests of `pair` and `open`, as the worker reads them.
abbrev pub pair_request : (origin : Option Str) → (code : Str) → Request
pair_request origin code = record {
  method = codes "POST";
  pathname = codes "/pair";
  search = [];
  origin = origin;
  upgrade = none;
  code = some code;
}

abbrev pub room_request : (origin : Option Str) → (room : Str) → Request
room_request origin room = record {
  method = codes "GET";
  pathname = codes "/room/" ++ room;
  search = [];
  origin = origin;
  upgrade = some (codes "websocket");
  code = none;
}

-- The clocks and random texts of the steps, on both sides.
pub record Moments : Type 0 where
  pub start : Input
  pub pair : WorkerInput
  pub upgrade : WorkerInput
  pub auth : WorkerInput

module _ (o : Browser) (digest : Digest) (allowed : Str) (origin : Option Str)
    (print : ClientMessage → Str) (at : Moments) where
  -- The message of the socket that a room has accepted last.
  unfoldable pub deliver : (room : Str) → (i : ℕ) → ClientMessage → World → World
  deliver room i m w =
      let (r, sent) =
        web_socket_message o.parse_json digest at.auth i (text (print m)) (w.rooms room) in
      record w { rooms = update room r w.rooms }

  -- The form is submitted, and nothing else happens until the socket of its session has sent its first
  -- message: the page's session, and the worker's objects.
  unfoldable pub join : Page → World → Option (Session × World)
  join page w = do
    let (p, submitted) = submit o at.start page
    (n, code, attempt) ← only (requests submitted)
    s ← p.sessions n
    let (v, response) =
        worker_fetch o.upper digest allowed true at.pair (pair_request origin code) w
    answer ← answered response.body
    let (t, asked) = on_pair_response attempt (some answer) s
    (i, place, ticket) ← connected asked
    room ← place
    let (u, upgraded) =
        worker_fetch o.upper digest allowed true at.upgrade (room_request origin room) v
    let (r, opened) = on_open i ticket t
    m ← transmitted opened
    some (r, deliver room (v.rooms room).next_id m u)

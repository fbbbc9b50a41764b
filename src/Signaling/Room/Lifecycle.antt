-- ===== src/Signaling/Room/Lifecycle.antt =====
-- The other events of a `Room`: a new socket (`fetch`), a socket that goes (`webSocketClose`,
-- `webSocketError`, `depart`) and the alarm. A run is any sequence of events.
pub mod Admission
pub mod Bounds
pub mod Messages
pub mod Invariant
pub mod Alarm
pub mod Departure
pub mod Throttle
use laptop_as_a_second_monit.Common.{
  ℕ, ◌+◌, Bool, true, false, ◌&&◌, ◌||◌, not, Option, none, some, List, [], ◌∷◌, ◌++◌, Str, codes,
  length, ltb, leb, if◌then◌else◌, map, filter, ◌==◌, min,
}
use laptop_as_a_second_monit.Protocol.Json.{Json}
use laptop_as_a_second_monit.Protocol.Message.{peer_left, PairResponse}
use laptop_as_a_second_monit.Protocol.Hex.{Digest}
use laptop_as_a_second_monit.Signaling.Room.State.{
  auth_deadline, Attachment, Stored, Socket, Room, Effect, send, close, Input, Outcome, all_peers,
  is_empty, attachment_of, attach, broadcast, unexpired, or_empty,
}
use laptop_as_a_second_monit.Signaling.Room.Pairing.{active_codes, claim}
use laptop_as_a_second_monit.Signaling.Room.Message.{after}
use laptop_as_a_second_monit.Signaling.Room.Message.Dispatch.{Payload, web_socket_message}

-- The status of the answer to an upgrade request.
pub data Upgrade : Type 0 where
  busy : Upgrade
  accepted : (id : ℕ) → Upgrade

-- The alarm comes at the latest at a time.
abbrev pub no_later : ℕ → Option ℕ → ℕ
no_later at none = at
no_later at (some t) = if ltb at t then at else t

abbrev pub new_attachment : ℕ → Attachment
new_attachment now = record {
  role = none;
  is_authenticated = false;
  deadline = now + auth_deadline;
  window = now;
  count = 0;
  live = none;
}

-- `fetch`, at most six sockets.
unfoldable pub accept : ℕ → Room → Room × Upgrade
accept now r = if leb 6 (length r.sockets) then (r, busy) else (
  record r {
    sockets = r.sockets ++ record { id = r.next_id; attachment = new_attachment now } ∷ [];
    next_id = r.next_id + 1;
    alarm = some (no_later (now + auth_deadline) r.alarm);
  },
  accepted r.next_id,
)

unfoldable pub depart : ℕ → Room → Outcome
depart i r = elim (attachment_of i r.sockets) [
  | none ↦ (r, [])
  | some a ↦
      if a.is_authenticated
      then (let sockets = attach i (record a { is_authenticated = false }) r.sockets in
          (record r { sockets = sockets }, broadcast peer_left (all_peers sockets)))
      else (r, [])
]

-- The two handlers of a socket that goes, without their log lines.
unfoldable pub web_socket_close : ℕ → Room → Outcome
web_socket_close i r = depart i r

unfoldable pub web_socket_error : ℕ → Room → Outcome
web_socket_error i r = after (close i 1011 (codes "connection") ∷ []) (depart i r)

-- The runtime takes a disconnected socket off its list.
unfoldable pub drop_socket : ℕ → List Socket → List Socket
drop_socket i [] = []
drop_socket i (s ∷ ss) = if s.id == i then ss else s ∷ drop_socket i ss

abbrev pub has_timed_out : ℕ → Socket → Bool
has_timed_out now s = not s.attachment.is_authenticated && leb s.attachment.deadline now

unfoldable pub timeouts : List Socket → List Effect
timeouts [] = []
timeouts (s ∷ ss) = close s.id 1008 (codes "authentication-timeout") ∷ timeouts ss

-- A list is stored while it has elements, and deleted otherwise.
abbrev pub keep_list : List Stored → Option (List Stored)
keep_list [] = none
keep_list (x ∷ xs) = some (x ∷ xs)

abbrev pub keep_token : ℕ → Option Stored → Option Stored
keep_token now none = none
keep_token now (some t) = if leb t.expires now then none else some t

abbrev pub token_list : Option Stored → List Stored
token_list none = []
token_list (some t) = t ∷ []

abbrev pub is_waiting : ℕ → Socket → Bool
is_waiting now s = not s.attachment.is_authenticated && ltb now s.attachment.deadline

abbrev pub minimum : ℕ → List ℕ → ℕ
minimum t [] = t
minimum t (u ∷ us) = min t (minimum u us)

-- The times at which something is still to be done.
unfoldable pub deadlines : ℕ → Room → List ℕ
deadlines now r =
    map (λ (s : Socket). s.attachment.deadline) (filter (is_waiting now) r.sockets)
    ++ (map (λ (c : Stored). c.expires) (or_empty r.codes)
        ++ (map (λ (t : Stored). t.expires) (or_empty r.tickets)
            ++ map (λ (t : Stored). t.expires) (token_list r.viewer_token)))

-- What the alarm handler leaves of the storage.
unfoldable pub purge : ℕ → Room → Room
unfolding active_codes
purge now r = record r {
  codes = keep_list (active_codes now r);
  tickets = keep_list (unexpired now (or_empty r.tickets));
  viewer_token = keep_token now r.viewer_token;
  alarm = none;
}

-- `storage.deleteAll()`
abbrev pub delete_all : Room → Room
delete_all r = record r {
  codes = none;
  tickets = none;
  viewer_token = none;
  failures = none;
  generation = none;
}

abbrev pub set_alarm : List ℕ → Room → Room
set_alarm [] r = if is_empty r.sockets then delete_all r else r
set_alarm (t ∷ ts) r = record r { alarm = some (minimum t ts) }

unfoldable pub ring : ℕ → Room → Outcome
ring now r =
    let r' = purge now r in
    (set_alarm (deadlines now r') r', timeouts (filter (has_timed_out now) r.sockets))

-- What can happen to a room.
pub data Event : Type 0 where
  on_fetch : Event
  on_claim : (code_hash : Str) → Event
  on_message : ℕ → Payload → Event
  on_close on_error on_disconnect : ℕ → Event
  on_alarm : Event

unfoldable pub step : (Str → Option Json) → Digest → Input → Event → Room → Room
step json_parse digest input on_fetch r = (accept input.now r).0
step json_parse digest input (on_claim code_hash) r = (claim digest input code_hash r).0
step json_parse digest input (on_message i payload) r =
    (web_socket_message json_parse digest input i payload r).0
step json_parse digest input (on_close i) r = (web_socket_close i r).0
step json_parse digest input (on_error i) r = (web_socket_error i r).0
step json_parse digest input (on_disconnect i) r = record r { sockets = drop_socket i r.sockets }
step json_parse digest input on_alarm r = (ring input.now r).0

unfoldable pub run : (Str → Option Json) → Digest → List (Input × Event) → Room → Room
run json_parse digest [] r = r
run json_parse digest ((input, e) ∷ es) r =
    run json_parse digest es (step json_parse digest input e r)

abbrev pub new_room : Str → Room
new_room name = record {
  name = name;
  sockets = [];
  next_id = 0;
  codes = none;
  tickets = none;
  viewer_token = none;
  failures = none;
  generation = none;
  alarm = none;
}

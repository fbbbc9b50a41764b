-- ===== src/Signaling/Tests.antt =====
-- Sample rooms, digests and inputs, at which the properties of signaling/src/index.ts are applied.
mod Pairing
mod Messages
mod Lifetime
mod Routing
use laptop_as_a_second_monit.Common.{
  ℕ, zero, suc, ◌<◌, ◌≡◌, ap, refl, Bool, true, false, Option, none, some, List, [], ◌∷◌, Str,
  codes, arith, All, length,
}
use laptop_as_a_second_monit.Protocol.Message.{Role, host, viewer}
use laptop_as_a_second_monit.Protocol.Hex.{Digest}
use laptop_as_a_second_monit.Protocol.Hex.Laws.{IsByte}
use laptop_as_a_second_monit.Signaling.Room.State.{Attachment, Stored, Socket, Room, Input}
use laptop_as_a_second_monit.Signaling.Room.Pairing.Tickets.{IsDigest}

abbrev pub repeated : ℕ → ℕ → Str
repeated zero c = []
repeated (suc n) c = c ∷ repeated n c

-- A digest that is 32 bytes for every text.
abbrev pub zero_digest : Digest
zero_digest text = repeated 32 0

repeated-IsByte : (n : ℕ) → All IsByte (repeated n 0)
repeated-IsByte zero = tt
repeated-IsByte (suc n) = (omega arith, repeated-IsByte n)

pub zero_digest-IsDigest : IsDigest zero_digest
zero_digest-IsDigest text = (refl, repeated-IsByte 32)

-- The room name and the hash that this digest gives.
abbrev pub zero_room : Str
zero_room = repeated 32 b'0'

abbrev pub zero_hash : Str
zero_hash = repeated 64 b'0'

abbrev pub at : ℕ → Input
at now = record { now = now; random_hex = zero_hash; random_uuid = codes "uuid" }

abbrev pub peer : Role → Option Str → Attachment
peer role live = record {
  role = some role;
  is_authenticated = true;
  deadline = 10000;
  window = 0;
  count = 1;
  live = live;
}

abbrev pub newcomer : Attachment
newcomer = record {
  role = none;
  is_authenticated = false;
  deadline = 20000;
  window = 0;
  count = 0;
  live = none;
}

abbrev pub code_of : Str → ℕ → Stored
code_of hash expires = record { hash = hash; expires = expires }

-- A room with one code and one ticket, and the sockets given.
abbrev pub room_with : List Socket → Room
room_with sockets = record {
  name = zero_room;
  sockets = sockets;
  next_id = 3;
  codes = some (code_of zero_hash 100000 ∷ []);
  tickets = some (code_of zero_hash 30000 ∷ []);
  viewer_token = none;
  failures = none;
  generation = some (codes "g");
  alarm = some 10000;
}

abbrev pub host_socket : Socket
host_socket = record { id = 0; attachment = peer host (some (codes "g")) }

abbrev pub viewer_socket : Socket
viewer_socket = record { id = 1; attachment = peer viewer (some (codes "g")) }

abbrev pub new_socket : Socket
new_socket = record { id = 2; attachment = newcomer }

abbrev pub waiting_room : Room
waiting_room = room_with (host_socket ∷ new_socket ∷ [])

abbrev pub full_room : Room
full_room = room_with (host_socket ∷ viewer_socket ∷ [])

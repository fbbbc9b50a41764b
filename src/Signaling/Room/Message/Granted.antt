-- ===== src/Signaling/Room/Message/Granted.antt =====
-- Who becomes a peer.
use laptop_as_a_second_monit.Common.{ℕ, ◌≤◌, ◌≡◌, refl, true, false, Option, none, some, Str, arith}
use laptop_as_a_second_monit.Protocol.Message.{host, viewer, ClientMessage, auth_host, auth_viewer}
use laptop_as_a_second_monit.Protocol.Hex.{Digest, room_for_secret}
use laptop_as_a_second_monit.Signaling.Hash.{timing_safe_equal_hex}
use laptop_as_a_second_monit.Signaling.Room.State.{
  Attachment, Room, Input, peers, is_empty, attachment_of,
}
use laptop_as_a_second_monit.Signaling.Room.Pairing.{throttled, pairing_failure, consume_ticket}
use laptop_as_a_second_monit.Signaling.Room.Message.{
  auth_as_host, present, auth_as_viewer, authenticate,
}

-- The sockets after a ticket or token has been presented, and after a failure has been counted.
present_sockets :
    (digest : Digest) (now : ℕ) (ticket token : Option Str) (r : Room)
    → (present digest now ticket token r).0.sockets ≡ r.sockets
unfolding present consume_ticket
present_sockets digest now none token r = refl
present_sockets digest now (some t) token r = ground arith

pairing_failure_sockets : (now : ℕ) (r : Room) → (pairing_failure now r).0.sockets ≡ r.sockets
unfolding pairing_failure
pairing_failure_sockets now r = refl

-- What a credential must satisfy.
abbrev pub IsGranted : Digest → ℕ → Attachment → Room → ClientMessage → Type 0
IsGranted digest now a r (auth_host secret live) =
    (now ≤ a.deadline) × (timing_safe_equal_hex (room_for_secret digest secret) r.name ≡ true)
IsGranted digest now a r (auth_viewer ticket token live) =
    (now ≤ a.deadline)
    × (throttled now r ≡ false)
    × (is_empty (peers host r.sockets) ≡ false)
    × (is_empty (peers viewer r.sockets) ≡ true)
    × ((present digest now ticket token r).1 ≡ true)
IsGranted digest now a r _ = ⊥

-- A socket that is not a peer becomes one only by an "auth" message that comes before its deadline: a
-- host's with a credential whose room is this one, or a viewer's with a valid ticket or token while
-- the throttle is off, a host is there and no viewer is.
pub authenticate-IsGranted :
    (digest : Digest) (input : Input) (i : ℕ) (a b : Attachment) (m : ClientMessage) (r : Room)
    → attachment_of i r.sockets ≡ some a
    → a.is_authenticated ≡ false
    → attachment_of i (authenticate digest input i a m r).0.sockets ≡ some b
    → b.is_authenticated ≡ true
    → IsGranted digest input.now a r m
unfolding authenticate auth_as_host auth_as_viewer
authenticate-IsGranted digest input i a b (auth_host secret live) r h k e l = ground arith
authenticate-IsGranted digest input i a b (auth_viewer ticket token live) r h k e l = ground (
  arith,
  present_sockets digest input.now ticket token r,
  pairing_failure_sockets input.now (present digest input.now ticket token r).0,
)
authenticate-IsGranted digest input i a b _ r h k e l = cc

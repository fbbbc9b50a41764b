-- ===== src/Signaling/Tests/Messages.antt =====
-- The properties of the messages of a room at concrete rooms.
use laptop_as_a_second_monit.Common.{
  ◌≤◌, ◌≡◌, refl, inl, true, false, none, some, [], ◌∷◌, codes, arith, length, str_eq,
  if◌then◌else◌, leb,
}
use laptop_as_a_second_monit.Protocol.Hex.{sha256_hex, hex, hex_digit, room_for_secret}
use laptop_as_a_second_monit.Protocol.Message.{
  host, viewer, ClientMessage, auth_host, auth_viewer, relay, description, Relay, offer, paired,
}
use laptop_as_a_second_monit.Signaling.Hash.{
  timing_safe_equal_hex, parse_bytes, parse_byte, digit_value, is_line_end,
}
use laptop_as_a_second_monit.Signaling.Room.State.{peers, attachment_of, attach, revoke, broadcast}
use laptop_as_a_second_monit.Signaling.Room.Pairing.{
  claim, throttled, code_valid, active_codes, issue_ticket,
}
use laptop_as_a_second_monit.Signaling.Room.Message.{
  authenticate, present, auth_as_host, enrol, closings, start_generation,
}
use laptop_as_a_second_monit.Signaling.Room.Message.Dispatch.{
  dispatch, kick_viewers, peer_message, relay_message,
}
use laptop_as_a_second_monit.Signaling.Room.Message.Generation.{Started, start_generation-Started}
use laptop_as_a_second_monit.Signaling.Room.Message.Rate.{messages_read, messages_read_bound}
use laptop_as_a_second_monit.Signaling.Room.Message.Granted.{IsGranted, authenticate-IsGranted}
use laptop_as_a_second_monit.Signaling.Room.Message.Relaying.{RelayGranted, dispatch-RelayGranted}
use laptop_as_a_second_monit.Signaling.Room.Message.Journey.{
  kick_viewers_revokes, claim-authenticate,
}
use laptop_as_a_second_monit.Signaling.Tests.{
  zero_digest, zero_digest-IsDigest, zero_hash, zero_room, at, newcomer, peer, host_socket,
  viewer_socket, waiting_room, full_room,
}

start_generation-Started_example : Started (at 1000) full_room
start_generation-Started_example =
    start_generation-Started (at 1000) full_room host_socket viewer_socket refl refl

messages_read_bound_example :
    messages_read (1 ∷ 2 ∷ 9000 ∷ []) newcomer ≤ (if leb 0 newcomer.window then 120 else 240)
messages_read_bound_example =
    messages_read_bound (1 ∷ 2 ∷ 9000 ∷ []) 0 newcomer
      ((omega arith, omega arith), ((omega arith, omega arith), ((omega arith, omega arith), tt)))

abbrev host_auth : ClientMessage
host_auth = auth_host (codes "secret") none

new_attachment_of : attachment_of 2 waiting_room.sockets ≡ some newcomer
unfolding attachment_of
new_attachment_of = refl

-- The newcomer, once it is the host.
enrolled :
    attachment_of 2 (authenticate zero_digest (at 1000) 2 newcomer host_auth waiting_room).0.sockets
    ≡ some (record newcomer { role = some host; is_authenticated = true })
unfolding authenticate auth_as_host enrol closings start_generation attachment_of attach revoke
    timing_safe_equal_hex parse_bytes parse_byte digit_value is_line_end str_eq room_for_secret
    sha256_hex hex hex_digit
enrolled = refl

authenticate-IsGranted_example : IsGranted zero_digest 1000 newcomer waiting_room host_auth
authenticate-IsGranted_example =
    authenticate-IsGranted zero_digest (at 1000) 2 newcomer
      (record newcomer { role = some host; is_authenticated = true }) host_auth waiting_room
      new_attachment_of refl enrolled refl

abbrev sample_offer : Relay
sample_offer = description offer (codes "g") (codes "v=0")

dispatch-RelayGranted_example :
    RelayGranted 1 sample_offer (peer host (some (codes "g"))) (relay sample_offer) full_room
unfolding dispatch peer_message relay_message broadcast str_eq
dispatch-RelayGranted_example =
    dispatch-RelayGranted zero_digest (at 1000) 0 1 (peer host (some (codes "g"))) sample_offer
      (relay sample_offer) full_room (inl refl)

kick_viewers_revokes_example :
    (peers viewer (kick_viewers full_room).0.sockets ≡ [])
    × (peers host (kick_viewers full_room).0.sockets ≡ peers host full_room.sockets)
    × ((kick_viewers full_room).0.generation ≡ none)
    × ((present zero_digest 2000 (some zero_hash) none (kick_viewers full_room).0).1 ≡ false)
kick_viewers_revokes_example = kick_viewers_revokes zero_digest 2000 (some zero_hash) none full_room

room_claimed : (claim zero_digest (at 5000) zero_hash waiting_room).1 ≡ paired zero_room zero_hash
unfolding claim throttled code_valid active_codes timing_safe_equal_hex parse_bytes parse_byte
    digit_value is_line_end str_eq issue_ticket sha256_hex hex hex_digit
room_claimed = refl

claim-authenticate_example :
    length (
      peers viewer
        (authenticate zero_digest
          (at 6000)
          2
          newcomer
          (auth_viewer (some zero_hash) none none)
          (claim zero_digest (at 5000) zero_hash waiting_room).0).0.sockets)
    ≡ 1
claim-authenticate_example =
    claim-authenticate zero_digest (at 5000) (at 6000) zero_hash waiting_room 2 newcomer none
      zero_digest-IsDigest (λ e. cc) room_claimed new_attachment_of refl (omega arith) (omega arith)
      (omega arith)

-- ===== src/Signaling/Tests/Pairing.antt =====
-- The properties of hashes, directory entries, codes and tickets at concrete values.
use laptop_as_a_second_monit.Common.{◌≡◌, false, none, List, [], ◌∷◌, codes, arith}
use laptop_as_a_second_monit.Signaling.Directory.{empty}
use laptop_as_a_second_monit.Signaling.Directory.Refinement.{
  Event, registers, rings, run, promise, Refines, last_time, run-Refines,
}
use laptop_as_a_second_monit.Signaling.Room.Pairing.{consume_ticket}
use laptop_as_a_second_monit.Signaling.Room.Pairing.Tickets.{consume_ticket_once}
use laptop_as_a_second_monit.Signaling.Tests.{zero_digest, zero_hash, waiting_room}

-- A code is registered, its alarm rings, and it is registered for another room.
abbrev entries : List Event
entries = registers 1 (codes "first") 5 ∷ rings 6 ∷ registers 8 (codes "second") 5 ∷ rings 9 ∷ []

run-Refines_example : Refines (last_time 0 entries) (run entries empty) (promise entries none)
run-Refines_example =
    run-Refines entries (omega arith, (omega arith, (omega arith, (omega arith, tt))))

consume_ticket_once_example :
    (consume_ticket zero_digest 6000 zero_hash
      (consume_ticket zero_digest 5000 zero_hash waiting_room).0).1
    ≡ false
consume_ticket_once_example =
    consume_ticket_once zero_digest zero_hash 5000 6000 waiting_room (ground arith)

-- ===== src/Signaling/Tests/Lifetime.antt =====
-- The properties of the lifetime of a room at concrete rooms and events.
use laptop_as_a_second_monit.Common.{
  ◌+◌, ◌*◌, ◌≤◌, if◌then◌else◌, is_none, arith, Option, none, List, [], ◌∷◌, Str, codes,
}
use laptop_as_a_second_monit.Protocol.Json.{Json}
use laptop_as_a_second_monit.Signaling.Room.State.{Input}
use laptop_as_a_second_monit.Signaling.Room.Lifecycle.{
  Event, on_fetch, on_message, on_alarm, on_claim, on_close, ring, run, new_room,
}
use laptop_as_a_second_monit.Signaling.Room.Message.Dispatch.{text}
use laptop_as_a_second_monit.Signaling.Room.Lifecycle.Bounds.{Inv}
use laptop_as_a_second_monit.Signaling.Room.Lifecycle.Invariant.{run-Inv}
use laptop_as_a_second_monit.Signaling.Room.Lifecycle.Alarm.{IsFresh, IsAwaited, ring_alarm}
use laptop_as_a_second_monit.Signaling.Room.Lifecycle.Throttle.{
  invalid_answers, idle_alarms, invalid_answers_bound,
}
use laptop_as_a_second_monit.Signaling.Tests.{zero_digest, zero_room, zero_hash, at, waiting_room}

abbrev no_json : Str → Option Json
no_json raw = none

abbrev sample_events : List (Input × Event)
sample_events =
    (at 0, on_fetch)
    ∷ (at 1, on_message 0 (text (codes "{}")))
    ∷ (at 2, on_claim zero_hash)
    ∷ (at 10000, on_alarm)
    ∷ (at 10001, on_close 0)
    ∷ []

run-Inv_example : Inv (run no_json zero_digest sample_events (new_room zero_room))
run-Inv_example = run-Inv no_json zero_digest zero_room sample_events

ring_alarm_example :
    IsFresh 10000 (ring 10000 waiting_room).0 × IsAwaited 10000 (ring 10000 waiting_room).0
ring_alarm_example = ring_alarm 10000 waiting_room

-- Two wrong codes, with an alarm between them.
abbrev wrong_codes : List (Input × Event)
wrong_codes =
    (at 1000, on_claim (codes "ff")) ∷ (at 1500, on_alarm) ∷ (at 2000, on_claim (codes "ff")) ∷ []

invalid_answers_bound_example :
    invalid_answers no_json zero_digest wrong_codes waiting_room
    ≤ (if is_none waiting_room.failures then 10 else 20)
      + 10 * idle_alarms no_json zero_digest wrong_codes waiting_room
invalid_answers_bound_example =
    invalid_answers_bound no_json zero_digest 0 wrong_codes waiting_room
      ((omega arith, omega arith), ((omega arith, omega arith), ((omega arith, omega arith), tt)))

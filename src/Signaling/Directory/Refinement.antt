-- ===== src/Signaling/Directory/Refinement.antt =====
-- The `Code` object of signaling/src/index.ts against what it promises: the room of the last registration,
-- until its time has passed. The promise has no alarm and deletes nothing.
use laptop_as_a_second_monit.Common.{
  ℕ, ◌+◌, ◌≤◌, ◌≡◌, refl, Option, none, some, List, [], ◌∷◌, Str, leb, if◌then◌else◌, arith,
}
use laptop_as_a_second_monit.Signaling.Directory.{Entry, Directory, empty, register, lookup, ring}

pub data Event : Type 0 where
  registers : (now : ℕ) → (room : Str) → (ttl_ms : ℕ) → Event
  rings : (now : ℕ) → Event

abbrev pub time : Event → ℕ
time (registers now room ttl_ms) = now
time (rings now) = now

unfoldable pub step : Event → Directory → Directory
step (registers now room ttl_ms) d = register now room ttl_ms d
step (rings now) d = ring now d

unfoldable pub run : List Event → Directory → Directory
run [] d = d
run (e ∷ es) d = run es (step e d)

-- The promise: the last registration.
abbrev pub Promise : Type 0
Promise = Option Entry

unfoldable pub promise_step : Event → Promise → Promise
promise_step (registers now room ttl_ms) p = some (record { room = room; expires = now + ttl_ms })
promise_step (rings now) p = p

unfoldable pub promise : List Event → Promise → Promise
promise [] p = p
promise (e ∷ es) p = promise es (promise_step e p)

unfoldable pub promised : ℕ → Promise → Option Str
promised later none = none
promised later (some e) = if leb e.expires later then none else some e.room

-- From a time on, no lookup tells the directory from its promise.
abbrev pub Refines : ℕ → Directory → Promise → Type 0
Refines t d p = (later : ℕ) → t ≤ later → lookup later d ≡ promised later p

-- The times of the events do not go back.
abbrev pub IsOrdered : ℕ → List Event → Type 0
IsOrdered t [] = Unit
IsOrdered t (e ∷ es) = (t ≤ time e) × IsOrdered (time e) es

-- The time of the last event.
abbrev pub last_time : ℕ → List Event → ℕ
last_time t [] = t
last_time t (e ∷ es) = last_time (time e) es

step-Refines :
    (t : ℕ) (e : Event) (d : Directory) (p : Promise)
    → t ≤ time e
    → Refines t d p
    → Refines (time e) (step e d) (promise_step e p)
unfolding step promise_step promised register ring lookup
step-Refines t (registers now room ttl_ms) d p h r later k = ground arith
step-Refines t (rings now) d p h r later k = ground (arith, r later)

run_from-Refines :
    (t : ℕ) (es : List Event) (d : Directory) (p : Promise)
    → IsOrdered t es
    → Refines t d p
    → Refines (last_time t es) (run es d) (promise es p)
unfolding run promise
run_from-Refines t [] d p h r = r
run_from-Refines t (e ∷ es) d p (h, hs) r =
    run_from-Refines (time e) es (step e d) (promise_step e p) hs (step-Refines t e d p h r)

-- However registrations and alarms follow one another in time, the directory answers every lookup as its
-- promise does: with the room of the last registration until its time has passed, and with none from
-- then on or where there is no registration.
pub run-Refines :
    (es : List Event) → IsOrdered 0 es → Refines (last_time 0 es) (run es empty) (promise es none)
unfolding run lookup promised
run-Refines es h = run_from-Refines 0 es empty none h (λ later k. refl)

-- ===== src/Signaling/Room/Message/Silent.antt =====
-- What a room sends where nothing is relayed: authentication, a generation, a kick, registrations.
use laptop_as_a_second_monit.Common.{
  ℕ, ◌≡◌, refl, inl, inr, Bool, true, false, Option, none, List, [], ◌∷◌, ◌++◌, Str, codes, arith,
  Bool-cases, Option-cases,
}
use laptop_as_a_second_monit.Protocol.Message.{
  host, viewer, CodeRegistration, ClientMessage, auth_host, auth_viewer, relayed, ready,
}
use laptop_as_a_second_monit.Protocol.Hex.{Digest, room_for_secret}
use laptop_as_a_second_monit.Signaling.Hash.{timing_safe_equal_hex}
use laptop_as_a_second_monit.Signaling.Room.State.{
  Attachment, Socket, Room, Input, Effect, send, peers, all_peers, broadcast, fail,
}
use laptop_as_a_second_monit.Signaling.Room.Message.{
  auth_as_host, present, admit_viewer, auth_as_viewer, authenticate, closings, start_generation,
  begin_generation, pair_up, resumable,
}
use laptop_as_a_second_monit.Signaling.Room.Message.Dispatch.{registrations, kick_effects}

-- The effects in which nothing is relayed.
abbrev pub is_relay : Effect → Bool
is_relay (send i (relayed m)) = true
is_relay _ = false

abbrev pub Silent : List Effect → Type 0
Silent [] = Unit
Silent (e ∷ es) = (is_relay e ≡ false) × Silent es

Silent-append : (es fs : List Effect) → Silent es → Silent fs → Silent (es ++ fs)
Silent-append [] fs h k = k
Silent-append (e ∷ es) fs (p, h) k = (p, Silent-append es fs h k)

Silent-ready : (g : Str) (resume : Bool) (ss : List Socket) → Silent (broadcast (ready g resume) ss)
unfolding broadcast
Silent-ready g resume [] = tt
Silent-ready g resume (s ∷ ss) = (refl, Silent-ready g resume ss)

Silent-closings : (reason : Str) (ss : List Socket) → Silent (closings reason ss)
unfolding closings
Silent-closings reason [] = tt
Silent-closings reason (s ∷ ss) = (refl, Silent-closings reason ss)

pub Silent-registrations :
    (room : Str) (cs : List CodeRegistration) → Silent (registrations room cs)
unfolding registrations
Silent-registrations room [] = tt
Silent-registrations room (c ∷ cs) = (refl, Silent-registrations room cs)

pub Silent-kick : (ss : List Socket) → Silent (kick_effects ss)
unfolding kick_effects
Silent-kick [] = tt
Silent-kick (s ∷ ss) = (refl, (refl, Silent-kick ss))

no_generation : (h v : Socket) → ¬ (resumable none h v ≡ true)
unfolding resumable
no_generation h v e = cc

begin_generation-Silent :
    (input : Input) (r : Room) (h v : Socket) → Silent (begin_generation input r h v).1
unfolding begin_generation
begin_generation-Silent input r h v = elim (Bool-cases (resumable r.generation h v)) [
  | inl e ↦ elim (Option-cases r.generation) [
    | inl o ↦ absurd (no_generation h v (rw (← o) e))
    | inr (g, o) ↦ rw e (rw o (Silent-ready g true (all_peers r.sockets)))
  ]
  | inr e ↦ rw e (Silent-ready input.random_uuid false (all_peers r.sockets))
]

start_generation-Silent : (input : Input) (r : Room) → Silent (start_generation input r).1
unfolding start_generation
start_generation-Silent input r =
    elim (Option-cases (pair_up (peers host r.sockets) (peers viewer r.sockets))) [
      | inl e ↦ rw (e, start_generation) tt
      | inr ((h, v), e) ↦ rw (e, start_generation) (begin_generation-Silent input r h v)
    ]

auth_as_host-Silent :
    (digest : Digest) (input : Input) (i : ℕ) (a : Attachment) (secret : Str) (live : Option Str)
    (r : Room)
    → Silent (auth_as_host digest input i a secret live r).1
unfolding auth_as_host
auth_as_host-Silent digest input i a secret live r =
    elim (Bool-cases (timing_safe_equal_hex (room_for_secret digest secret) r.name)) [
      | inl e ↦ rw e (
          Silent-append _ _
            (Silent-append _ _ (Silent-closings (codes "replaced") (peers host r.sockets))
              (refl, tt))
            (start_generation-Silent input _))
      | inr e ↦ rw e (refl, (refl, tt))
    ]

admit_viewer-Silent :
    (digest : Digest) (input : Input) (i : ℕ) (a : Attachment) (live : Option Str) (r : Room)
    → Silent (admit_viewer digest input i a live r).1
unfolding admit_viewer
admit_viewer-Silent digest input i a live r = (refl, start_generation-Silent input _)

auth_as_viewer-Silent :
    (digest : Digest) (input : Input) (i : ℕ) (a : Attachment) (ticket token live : Option Str)
    (r : Room)
    → Silent (auth_as_viewer digest input i a ticket token live r).1
unfolding auth_as_viewer
auth_as_viewer-Silent digest input i a ticket token live r =
    ground
      (arith, admit_viewer-Silent digest input i a live (present digest input.now ticket token r).0)

pub authenticate-Silent :
    (digest : Digest) (input : Input) (i : ℕ) (a : Attachment) (m : ClientMessage) (r : Room)
    → Silent (authenticate digest input i a m r).1
unfolding authenticate
authenticate-Silent digest input i a (auth_host secret live) r =
    ground (arith, auth_as_host-Silent digest input i a secret live r)
authenticate-Silent digest input i a (auth_viewer ticket token live) r =
    ground (arith, auth_as_viewer-Silent digest input i a ticket token live r)
authenticate-Silent digest input i a _ r = (refl, (refl, tt))

pub Silent-fail : (i : ℕ) (code : Str) → Silent (fail i code)
Silent-fail i code = (refl, (refl, tt))

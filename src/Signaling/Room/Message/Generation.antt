-- ===== src/Signaling/Room/Message/Generation.antt =====
-- When two peers keep their media connection, and when they negotiate a new one.
use laptop_as_a_second_monit.Common.{
  ◌≡◌, refl, ap, Bool, true, false, ◌&&◌, Option, none, some, List, [], ◌∷◌, Str, str_eq_iff,
  str_eq_refl, arith, Bool-cases, Option-cases, inl, inr, length, filter, All, &&-eq-true,
}
use laptop_as_a_second_monit.Protocol.Message.{Role, host, viewer, ready}
use laptop_as_a_second_monit.Signaling.Room.State.{Socket, Room, Input, peers, all_peers, broadcast}
use laptop_as_a_second_monit.Signaling.Room.State.Peers.{lacks_role}
use laptop_as_a_second_monit.Signaling.Room.Message.{
  is_held, holds, is_truthy, resumable, begin_generation, pair_up, start_generation,
}

abbrev pub Holds : Str → Socket → Type 0
Holds g s = s.attachment.live ≡ some g

is_held_sound : (g : Str) (o : Option Str) → is_held g o ≡ true → o ≡ some g
is_held_sound g none h = cc
is_held_sound g (some l) h = ap some ((str_eq_iff l g).0 h)

resumable_sound :
    (o : Option Str) (h v : Socket)
    → resumable o h v ≡ true
    → (g : Str) × (o ≡ some g) × Holds g h × Holds g v
unfolding resumable
resumable_sound none h v e = cc
resumable_sound (some g) h v e =
    let (first, second) = &&-eq-true (is_truthy g && holds g h) (holds g v) e in
    (
      g,
      refl,
      is_held_sound g _ (&&-eq-true (is_truthy g) (holds g h) first).1,
      is_held_sound g _ second,
    )

-- What holds of the host and of the viewer holds of every peer.
All-all_peers :
    (P : Socket → Type 0) (ss : List Socket)
    → length (filter (λ s. lacks_role s.attachment) ss) ≡ 0
    → All P (peers host ss)
    → All P (peers viewer ss)
    → All P (all_peers ss)
All-all_peers P [] n h v = tt
All-all_peers P (s ∷ ss) n h v = ground (arith, All-all_peers P ss)

-- What holds of every peer holds of the peers of a role.
All-peers :
    (P : Socket → Type 0) (q : Role) (ss : List Socket) → All P (all_peers ss) → All P (peers q ss)
All-peers P q [] h = tt
All-peers P q (s ∷ ss) h = ground (arith, All-peers P q ss)

is_held_complete : (g : Str) (s : Socket) → Holds g s → holds g s ≡ true
is_held_complete g s h = rw (h, holds) (str_eq_refl g)

resumable_complete :
    (g : Str) (h v : Socket)
    → is_truthy g ≡ true
    → Holds g h
    → Holds g v
    → resumable (some g) h v ≡ true
unfolding resumable
resumable_complete g h v t p q = rw (t, is_held_complete g h p, is_held_complete g v q)

pair_up_lem :
    (hs vs : List Socket) (h v : Socket)
    → pair_up hs vs ≡ some (h, v)
    → (hs ≡ h ∷ []) × (vs ≡ v ∷ [])
pair_up_lem (h' ∷ []) (v' ∷ []) h v e = ground arith
pair_up_lem [] vs h v e = cc
pair_up_lem (h' ∷ []) [] h v e = cc
pair_up_lem (h' ∷ []) (v' ∷ v'' ∷ vs) h v e = cc
pair_up_lem (h' ∷ h'' ∷ hs) vs h v e = cc

-- What the peers are told: the generation, and whether they go on with it.
abbrev pub Verdict : Input → Room → Str → Bool → Type 0
Verdict input r g true = (r.generation ≡ some g) × All (Holds g) (all_peers r.sockets)
Verdict input r g false =
    (g ≡ input.random_uuid)
    × ((k : Str)
        → r.generation ≡ some k
        → is_truthy k ≡ true
        → ¬ All (Holds k) (all_peers r.sockets))

pub record Started (input : Input) (r : Room) : Type 0 where
  pub generation : Str
  pub resume : Bool
  pub told :
      (start_generation input r).1 ≡ broadcast (ready generation resume) (all_peers r.sockets)
  pub stored : (start_generation input r).0.generation ≡ some generation
  pub verdict : Verdict input r generation resume

Started-again :
    (input : Input) (r : Room) (h v : Socket)
    → pair_up (peers host r.sockets) (peers viewer r.sockets) ≡ some (h, v)
    → length (filter (λ s. lacks_role s.attachment) r.sockets) ≡ 0
    → resumable r.generation h v ≡ true
    → Started input r
unfolding start_generation begin_generation
Started-again input r h v e n k =
    let (g, stored, host_holds, viewer_holds) = resumable_sound r.generation h v k in
    let (hosts, viewers) = pair_up_lem (peers host r.sockets) (peers viewer r.sockets) h v e in
    record {
      generation = g;
      resume = true;
      told = ground arith;
      stored = ground arith;
      verdict = (
        stored,
        All-all_peers (Holds g) r.sockets n (rw hosts (host_holds, tt))
            (rw viewers (viewer_holds, tt)),
      );
    }

Started-anew :
    (input : Input) (r : Room) (h v : Socket)
    → pair_up (peers host r.sockets) (peers viewer r.sockets) ≡ some (h, v)
    → resumable r.generation h v ≡ false
    → Started input r
unfolding start_generation begin_generation
Started-anew input r h v e k = record {
  generation = input.random_uuid;
  resume = false;
  told = ground arith;
  stored = ground arith;
  verdict = (
    refl,
    λ g stored t all_hold.
        let (hosts, viewers) = pair_up_lem (peers host r.sockets) (peers viewer r.sockets) h v e in
        let host_holds : All (Holds g) (h ∷ []) =
          rw hosts at (All-peers (Holds g) host r.sockets all_hold) in
        let viewer_holds : All (Holds g) (v ∷ []) =
          rw viewers at (All-peers (Holds g) viewer r.sockets all_hold) in
        let again : resumable r.generation h v ≡ true =
          rw stored (resumable_complete g h v t host_holds.0 viewer_holds.0) in
        cc,
  );
}

-- With one host, one viewer and no peer without a role, every peer is told one generation, which is
-- the one stored from then on. The peers are told to resume exactly if a generation that is not the
-- empty text was stored already and every peer holds it; otherwise the generation is a new one.
pub start_generation-Started :
    (input : Input) (r : Room) (h v : Socket)
    → pair_up (peers host r.sockets) (peers viewer r.sockets) ≡ some (h, v)
    → length (filter (λ s. lacks_role s.attachment) r.sockets) ≡ 0
    → Started input r
start_generation-Started input r h v e n = elim (Bool-cases (resumable r.generation h v)) [
  | inl k ↦ Started-again input r h v e n k
  | inr k ↦ Started-anew input r h v e k
]

-- The start of a generation leaves sockets and tickets alone.
begin_generation_keeps :
    (input : Input) (r : Room) (h v : Socket)
    → ((begin_generation input r h v).0.sockets ≡ r.sockets)
      × ((begin_generation input r h v).0.tickets ≡ r.tickets)
unfolding begin_generation
begin_generation_keeps input r h v = ground arith

pub start_generation_keeps :
    (input : Input) (r : Room)
    → ((start_generation input r).0.sockets ≡ r.sockets)
      × ((start_generation input r).0.tickets ≡ r.tickets)
unfolding start_generation
start_generation_keeps input r =
    elim (Option-cases (pair_up (peers host r.sockets) (peers viewer r.sockets))) [
      | inl e ↦ rw (e, start_generation) (refl, refl)
      | inr ((h, v), e) ↦ rw (e, start_generation) (begin_generation_keeps input r h v)
    ]

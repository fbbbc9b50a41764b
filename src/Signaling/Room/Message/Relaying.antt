-- ===== src/Signaling/Room/Message/Relaying.antt =====
-- Where offers, answers and candidates go.
use laptop_as_a_second_monit.Common.{
  ℕ, ◌≡◌, refl, sym, ap, ◌⊎◌, inl, inr, ◌≢◌, true, Option, none, some, List, [], ◌∷◌, Str, codes,
  str_eq_iff, arith, Bool-cases,
}
use laptop_as_a_second_monit.Protocol.Message.{
  offer, answer, host, viewer, ClientMessage, auth_host, auth_viewer, register_codes, kick, state,
  relay, Relay, relayed, Role, description, ice,
}
use laptop_as_a_second_monit.Protocol.Hex.{Digest}
use laptop_as_a_second_monit.Signaling.Room.State.{
  Attachment, Socket, Room, Input, Effect, is_peer, send, peers, broadcast, has_role, fail,
}
use laptop_as_a_second_monit.Signaling.Room.Message.{authenticate}
use laptop_as_a_second_monit.Signaling.Room.Message.Dispatch.{
  peer_message, dispatch, relay_message, may_relay, relay_generation, other_side, is_current,
  is_same, set_codes, kick_viewers,
}
use laptop_as_a_second_monit.Signaling.Room.Message.Silent.{
  is_relay, Silent, Silent-registrations, Silent-kick, Silent-fail, authenticate-Silent,
}

-- A relayed message is sent to a socket.
abbrev pub Relays : ℕ → Relay → List Effect → Type 0
Relays j m [] = ⊥
Relays j m (e ∷ es) = (e ≡ send j (relayed m)) ⊎ Relays j m es

abbrev pub Reaches : ℕ → List Socket → Type 0
Reaches j [] = ⊥
Reaches j (s ∷ ss) = (s.id ≡ j) ⊎ Reaches j ss

Silent-not_Relays : (j : ℕ) (m : Relay) (es : List Effect) → Silent es → ¬ Relays j m es
Silent-not_Relays j m [] h k = k
Silent-not_Relays j m (e ∷ es) (p, h) (inl same) = cc (ap is_relay same)
Silent-not_Relays j m (e ∷ es) (p, h) (inr later) = Silent-not_Relays j m es h later

broadcast-Relays :
    (j : ℕ) (m n : Relay) (ss : List Socket)
    → Relays j m (broadcast (relayed n) ss)
    → (n ≡ m) × Reaches j ss
unfolding broadcast
broadcast-Relays j m n [] h = absurd h
broadcast-Relays j m n (s ∷ ss) (inl same) = (ground arith, inl (ground arith))
broadcast-Relays j m n (s ∷ ss) (inr later) =
    let (e, k) = broadcast-Relays j m n ss later in (e, inr k)

-- Which role a message asks for: an offer is the host's and an answer the viewer's.
abbrev pub Permits : Relay → Option Role → Type 0
Permits (description offer g s) role = role ≡ some host
Permits (description answer g s) role = role ≡ some viewer
Permits (ice g c m) role = Unit

-- What a message is about.
abbrev pub Concerns : Relay → Option Str → Type 0
Concerns (description t g s) current = current ≡ some g
Concerns (ice g c m) current = current ≡ some g

relay_generation-Concerns :
    (m : Relay) (current : Option Str) → current ≡ some (relay_generation m) → Concerns m current
relay_generation-Concerns (description t g s) current e = e
relay_generation-Concerns (ice g c m) current e = e

-- Among the sockets one of the number is an authenticated peer of the role.
abbrev pub HasPeer : ℕ → Role → List Socket → Type 0
HasPeer j role [] = ⊥
HasPeer j role (s ∷ ss) =
    ((s.id ≡ j) × (s.attachment.is_authenticated ≡ true) × (s.attachment.role ≡ some role))
    ⊎ HasPeer j role ss

-- From the host to the viewers, and from anybody else to the hosts.
abbrev pub Crosses : ℕ → Option Role → List Socket → Type 0
Crosses j role ss =
    ((role ≡ some host) × HasPeer j viewer ss) ⊎ ((role ≢ some host) × HasPeer j host ss)

has_host : (role : Option Role) → has_role host role ≡ true → role ≡ some host
has_host none e = absurd cc
has_host (some host) e = refl
has_host (some viewer) e = absurd cc

has_viewer : (role : Option Role) → has_role viewer role ≡ true → role ≡ some viewer
has_viewer none e = absurd cc
has_viewer (some host) e = absurd cc
has_viewer (some viewer) e = refl

may_relay-Permits : (m : Relay) (role : Option Role) → may_relay m role ≡ true → Permits m role
may_relay-Permits (description offer g s) role e = has_host role e
may_relay-Permits (description answer g s) role e = has_viewer role e
may_relay-Permits (ice g c m) role e = tt

has_role_same : (role : Role) (o : Option Role) → has_role role o ≡ true → o ≡ some role
has_role_same host o e = has_host o e
has_role_same viewer o e = has_viewer o e

is_peer_sound :
    (role : Role) (a : Attachment)
    → is_peer role a ≡ true
    → (a.is_authenticated ≡ true) × (a.role ≡ some role)
is_peer_sound role a e = (ground arith, has_role_same role a.role (ground arith))

peers-HasPeer :
    (j : ℕ) (role : Role) (ss : List Socket) → Reaches j (peers role ss) → HasPeer j role ss
peers-HasPeer j role [] h = absurd h
peers-HasPeer j role (s ∷ ss) h = elim (Bool-cases (is_peer role s.attachment)) [
  | inr e ↦ inr (peers-HasPeer j role ss (rw e at h))
  | inl e ↦ elim (rw e at h) [
    | inl same ↦ let (known, named) = is_peer_sound role s.attachment e in inl (same, known, named)
    | inr later ↦ inr (peers-HasPeer j role ss later)
  ]
]

other_side-Crosses :
    (j : ℕ) (role : Option Role) (ss : List Socket)
    → Reaches j (peers (other_side role) ss)
    → Crosses j role ss
other_side-Crosses j none ss h = inr (λ e. cc, peers-HasPeer j host ss h)
other_side-Crosses j (some host) ss h = inl (refl, peers-HasPeer j viewer ss h)
other_side-Crosses j (some viewer) ss h = inr (λ e. cc, peers-HasPeer j host ss h)

-- Who may send a relayed message, when, and to whom.
pub record RelayGranted (j : ℕ) (m : Relay) (a : Attachment) (sent : ClientMessage) (r : Room)
    : Type 0 where
  pub authenticated : a.is_authenticated ≡ true
  pub unchanged : sent ≡ relay m
  pub permitted : Permits m a.role
  pub current : Concerns m r.generation
  pub reached : Crosses j a.role r.sockets

is_same_sound : (g : Str) (o : Option Str) → is_same g o ≡ true → o ≡ some g
is_same_sound g none h = cc
is_same_sound g (some k) h = ap some (sym ((str_eq_iff g k).0 h))

relay_message-RelayGranted :
    (i j : ℕ) (a : Attachment) (m n : Relay) (r : Room)
    → a.is_authenticated ≡ true
    → Relays j m (relay_message i a n r).1
    → RelayGranted j m a (relay n) r
unfolding relay_message
relay_message-RelayGranted i j a m n r k h = elim (Bool-cases (may_relay n a.role)) [
  | inr p ↦
      absurd
        (Silent-not_Relays j m (fail i (codes "role")) (Silent-fail i (codes "role")) (rw p at h))
  | inl p ↦ elim (Bool-cases (is_current (relay_generation n) r)) [
    | inr c ↦ absurd (rw (p, c) at h)
    | inl c ↦
        let (same, reached) =
          broadcast-Relays j m n (peers (other_side a.role) r.sockets) (rw (p, c) at h) in
        record {
          authenticated = k;
          unchanged = ap relay same;
          permitted = may_relay-Permits m a.role (rw (← same) p);
          current =
              relay_generation-Concerns m r.generation
                (rw (← same) (is_same_sound (relay_generation n) r.generation c));
          reached = other_side-Crosses j a.role r.sockets reached;
        }
  ]
]

-- No other message of a peer has anything relayed.
peer_message-Silent :
    (now i : ℕ) (a : Attachment) (m : ClientMessage) (r : Room)
    → ((n : Relay) → m ≢ relay n)
    → Silent (peer_message now i a m r).1
unfolding peer_message set_codes kick_viewers
peer_message-Silent now i a (auth_host secret live) r h = Silent-fail i (codes "role")
peer_message-Silent now i a (auth_viewer ticket token live) r h = Silent-fail i (codes "role")
peer_message-Silent now i a (register_codes cs) r h = elim (Bool-cases (has_role host a.role)) [
  | inl e ↦ rw e (Silent-registrations r.name cs)
  | inr e ↦ rw e (Silent-fail i (codes "role"))
]
peer_message-Silent now i a (state g live) r h = tt
peer_message-Silent now i a kick r h = elim (Bool-cases (has_role host a.role)) [
  | inl e ↦ rw e (Silent-kick (peers viewer r.sockets))
  | inr e ↦ rw e (Silent-fail i (codes "role"))
]
peer_message-Silent now i a (relay m) r h = absurd (h m refl)

peer_message-RelayGranted :
    (now i j : ℕ) (a : Attachment) (m : Relay) (sent : ClientMessage) (r : Room)
    → a.is_authenticated ≡ true
    → Relays j m (peer_message now i a sent r).1
    → RelayGranted j m a sent r
peer_message-RelayGranted now i j a m (relay n) r k h =
    relay_message-RelayGranted i j a m n r k (unfold peer_message in h)
peer_message-RelayGranted now i j a m sent r k h = absurd (
    Silent-not_Relays j m (peer_message now i a sent r).1
      (peer_message-Silent now i a sent r (λ n. λ e. cc)) h)

-- An offer, answer or candidate is passed on unchanged and only from an authenticated peer, an offer only
-- from the host and an answer only from the viewer, about the current generation, and from the host to
-- the authenticated viewers, from anybody else to the authenticated hosts.
pub dispatch-RelayGranted :
    (digest : Digest) (input : Input) (i j : ℕ) (a : Attachment) (m : Relay) (sent : ClientMessage)
    (r : Room)
    → Relays j m (dispatch digest input i a sent r).1
    → RelayGranted j m a sent r
unfolding dispatch
dispatch-RelayGranted digest input i j a m sent r h = elim (Bool-cases a.is_authenticated) [
  | inl e ↦ peer_message-RelayGranted input.now i j a m sent r e (simp e at h)
  | inr e ↦ absurd (
      Silent-not_Relays j m (authenticate digest input i a sent r).1
        (authenticate-Silent digest input i a sent r) (simp e at h))
]

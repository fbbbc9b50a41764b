-- ===== src/Signaling/Room/Lifecycle/Alarm.antt =====
-- The alarm: what it clears, and when it comes again.
use laptop_as_a_second_monit.Common.{
  ℕ, ◌+◌, ◌++◌, ◌≤◌, ◌<◌, ◌≡◌, refl, ◌⊎◌, All-mono, true, false, Option, none, some, List, [], ◌∷◌,
  arith, Bool-cases, inl, inr, length, filter, map, min, All, All-append,
}
use laptop_as_a_second_monit.Signaling.Room.State.{
  auth_deadline, Stored, Socket, Room, is_empty, unexpired, or_empty,
}
use laptop_as_a_second_monit.Signaling.Room.Pairing.{active_codes}
use laptop_as_a_second_monit.Signaling.Room.Lifecycle.{
  accepted, busy, accept, keep_list, keep_token, token_list, is_waiting, minimum, deadlines, purge,
  set_alarm, ring,
}

-- A new socket is accepted exactly while there are fewer than six, and then the alarm comes no later
-- than the socket's deadline.
accept_alarm :
    (now : ℕ) (r : Room)
    → (((accept now r).1 ≡ busy) × (6 ≤ length r.sockets) × ((accept now r).0 ≡ r))
      ⊎ (((accept now r).1 ≡ accepted r.next_id)
          × (length r.sockets < 6)
          × ((t : ℕ) × ((accept now r).0.alarm ≡ some t) × (t ≤ now + auth_deadline)))
unfolding accept
accept_alarm now r = ground arith

All-unexpired : (now : ℕ) (xs : List Stored) → All (λ c. now < c.expires) (unexpired now xs)
All-unexpired now [] = tt
All-unexpired now (x ∷ xs) = ground (arith, All-unexpired now xs)

-- All the times of a list lie after a time.
abbrev Later : ℕ → List ℕ → Type 0
Later now = All (λ t. now < t)

Later-expires :
    (now : ℕ) (xs : List Stored)
    → All (λ c. now < c.expires) xs
    → Later now (map (λ (c : Stored). c.expires) xs)
Later-expires now [] h = tt
Later-expires now (x ∷ xs) (h, hs) = (h, Later-expires now xs hs)

Later-waiting :
    (now : ℕ) (ss : List Socket)
    → Later now (map (λ (s : Socket). s.attachment.deadline) (filter (is_waiting now) ss))
Later-waiting now [] = tt
Later-waiting now (s ∷ ss) = ground (arith, Later-waiting now ss)

or_empty-keep_list : (xs : List Stored) → or_empty (keep_list xs) ≡ xs
or_empty-keep_list [] = refl
or_empty-keep_list (x ∷ xs) = refl

Later-token :
    (now : ℕ) (o : Option Stored)
    → Later now (map (λ (c : Stored). c.expires) (token_list (keep_token now o)))
Later-token now none = tt
Later-token now (some t) = ground arith

-- What the storage holds has not expired.
pub record IsFresh (now : ℕ) (r : Room) : Type 0 where
  pub codes : All (λ c. now < c.expires) (or_empty r.codes)
  pub tickets : All (λ c. now < c.expires) (or_empty r.tickets)
  pub token : All (λ c. now < c.expires) (token_list r.viewer_token)

token_fresh :
    (now : ℕ) (o : Option Stored) → All (λ c. now < c.expires) (token_list (keep_token now o))
token_fresh now none = tt
token_fresh now (some t) = ground arith

purge-IsFresh : (now : ℕ) (r : Room) → IsFresh now (purge now r)
unfolding purge active_codes
purge-IsFresh now r = record {
  codes = rw or_empty-keep_list (All-unexpired now (or_empty r.codes));
  tickets = rw or_empty-keep_list (All-unexpired now (or_empty r.tickets));
  token = token_fresh now r.viewer_token;
}

deadlines-Later : (now : ℕ) (r : Room) → IsFresh now r → Later now (deadlines now r)
unfolding deadlines
deadlines-Later now r f = All-append _ _ _ (Later-waiting now r.sockets) (
    All-append _ _ _ (Later-expires now (or_empty r.codes) f.codes) (
      All-append _ _ _ (Later-expires now (or_empty r.tickets) f.tickets)
        (Later-expires now (token_list r.viewer_token) f.token)))

minimum_le : (t : ℕ) (ts : List ℕ) → All (λ d. minimum t ts ≤ d) (t ∷ ts)
minimum_le t [] = (omega arith, tt)
minimum_le t (u ∷ us) = (
  omega arith,
  All-mono {P = λ d. minimum u us ≤ d} {Q = λ d. min t (minimum u us) ≤ d} (λ d h. omega arith)
      (u ∷ us) (minimum_le u us),
)

lt_minimum : (now t : ℕ) (ts : List ℕ) → Later now (t ∷ ts) → now < minimum t ts
lt_minimum now t [] h = h.0
lt_minimum now t (u ∷ us) (h, hs) = omega (arith, lt_minimum now u us hs)

-- The alarm is set, later than a time, and no later than another.
abbrev pub WakesBy : ℕ → Option ℕ → ℕ → Type 0
WakesBy now alarm d = (t : ℕ) × (alarm ≡ some t) × (now < t) × (t ≤ d)

set_alarm-WakesBy :
    (now : ℕ) (ds : List ℕ) (r : Room) → Later now ds → All (WakesBy now (set_alarm ds r).alarm) ds
set_alarm-WakesBy now [] r h = tt
set_alarm-WakesBy now (d ∷ ds) r h =
    All-mono {P = λ e. minimum d ds ≤ e} {Q = WakesBy now (some (minimum d ds))}
      (λ e le. (minimum d ds, refl, lt_minimum now d ds h, le)) (d ∷ ds) (minimum_le d ds)

set_alarm-IsFresh :
    (now : ℕ) (ds : List ℕ) (r : Room) → IsFresh now r → IsFresh now (set_alarm ds r)
set_alarm-IsFresh now [] r f = elim (Bool-cases (is_empty r.sockets)) [
  | inl e ↦ rw e (record { codes = tt; tickets = tt; token = tt })
  | inr e ↦ rw e f
]
set_alarm-IsFresh now (d ∷ ds) r f = record {
  codes = f.codes;
  tickets = f.tickets;
  token = f.token;
}

-- The alarm comes again for each element of a list that is stored.
abbrev pub Covers : ℕ → Option ℕ → Option (List Stored) → Type 0
Covers now alarm none = Unit
Covers now alarm (some cs) = All (λ c. WakesBy now alarm c.expires) cs

abbrev pub CoversToken : ℕ → Option ℕ → Option Stored → Type 0
CoversToken now alarm none = Unit
CoversToken now alarm (some t) = WakesBy now alarm t.expires

-- A socket has authenticated, or its time is over, or the alarm comes for it.
abbrev pub IsWatched : ℕ → Option ℕ → Socket → Type 0
IsWatched now alarm s =
    (s.attachment.is_authenticated ≡ true)
    ⊎ ((s.attachment.deadline ≤ now) ⊎ WakesBy now alarm s.attachment.deadline)

-- What the alarm is set for.
pub record IsAwaited (now : ℕ) (r : Room) : Type 0 where
  pub sockets : All (IsWatched now r.alarm) r.sockets
  pub codes : Covers now r.alarm r.codes
  pub tickets : Covers now r.alarm r.tickets
  pub token : CoversToken now r.alarm r.viewer_token

All-split : {A : Type 0} (P : A → Type 0) (xs ys : List A) → All P (xs ++ ys) → All P xs × All P ys
All-split P [] ys h = (tt, h)
All-split P (x ∷ xs) ys (p, h) = let (a, b) = All-split P xs ys h in ((p, a), b)

All-expires :
    (now : ℕ) (alarm : Option ℕ) (xs : List Stored)
    → All (WakesBy now alarm) (map (λ (c : Stored). c.expires) xs)
    → All (λ c. WakesBy now alarm c.expires) xs
All-expires now alarm [] h = tt
All-expires now alarm (x ∷ xs) (p, h) = (p, All-expires now alarm xs h)

Covers-map :
    (now : ℕ) (alarm : Option ℕ) (o : Option (List Stored))
    → All (WakesBy now alarm) (map (λ (c : Stored). c.expires) (or_empty o))
    → Covers now alarm o
Covers-map now alarm none h = tt
Covers-map now alarm (some xs) h = All-expires now alarm xs h

CoversToken-map :
    (now : ℕ) (alarm : Option ℕ) (o : Option Stored)
    → All (WakesBy now alarm) (map (λ (c : Stored). c.expires) (token_list o))
    → CoversToken now alarm o
CoversToken-map now alarm none h = tt
CoversToken-map now alarm (some t) h = h.0

not_waiting :
    (now : ℕ) (alarm : Option ℕ) (s : Socket) → is_waiting now s ≡ false → IsWatched now alarm s
not_waiting now alarm s e = elim (Bool-cases s.attachment.is_authenticated) [
  | inl k ↦ inl k
  | inr k ↦ inr (inl (ground arith))
]

IsWatched-map :
    (now : ℕ) (alarm : Option ℕ) (ss : List Socket)
    → All
        (WakesBy now alarm)
        (map (λ (s : Socket). s.attachment.deadline) (filter (is_waiting now) ss))
    → All (IsWatched now alarm) ss
IsWatched-map now alarm [] h = tt
IsWatched-map now alarm (s ∷ ss) h = elim (Bool-cases (is_waiting now s)) [
  | inl e ↦ let (p, h') = rw e at h in (inr (inr p), IsWatched-map now alarm ss h')
  | inr e ↦ (not_waiting now alarm s e, IsWatched-map now alarm ss (rw e at h))
]

deadlines-IsAwaited :
    (now : ℕ) (alarm : Option ℕ) (r : Room)
    → All (WakesBy now alarm) (deadlines now r)
    → IsAwaited now (record r { alarm = alarm })
unfolding deadlines
deadlines-IsAwaited now alarm r h =
    let wakes = WakesBy now alarm in
    let (waiting, h') = All-split wakes _ _ h in
    let (cs, h'') = All-split wakes _ _ h' in
    let (ts, token) = All-split wakes _ _ h'' in
    record {
      sockets = IsWatched-map now alarm r.sockets waiting;
      codes = Covers-map now alarm r.codes cs;
      tickets = Covers-map now alarm r.tickets ts;
      token = CoversToken-map now alarm r.viewer_token token;
    }

set_alarm-IsAwaited :
    (now : ℕ) (ds : List ℕ) (r : Room)
    → deadlines now r ≡ ds
    → Later now ds
    → IsAwaited now (set_alarm ds r)
set_alarm-IsAwaited now [] r e h =
    let rest = deadlines-IsAwaited now r.alarm r (rw e tt) in
    elim (Bool-cases (is_empty r.sockets)) [
      | inl k ↦ rw k (record { sockets = rest.sockets; codes = tt; tickets = tt; token = tt })
      | inr k ↦ rw k rest
    ]
set_alarm-IsAwaited now (d ∷ ds) r e h =
    deadlines-IsAwaited now (some (minimum d ds)) r (rw e (set_alarm-WakesBy now (d ∷ ds) r h))

-- After the alarm the storage holds nothing that has expired, and for each socket that has not authenticated
-- and whose deadline lies ahead, and each stored code, ticket and token, the alarm comes again, later than
-- now and no later than its time.
pub ring_alarm : (now : ℕ) (r : Room) → IsFresh now (ring now r).0 × IsAwaited now (ring now r).0
unfolding ring
ring_alarm now r =
    let fresh = purge-IsFresh now r in
    (
      set_alarm-IsFresh now (deadlines now (purge now r)) (purge now r) fresh,
      set_alarm-IsAwaited now (deadlines now (purge now r)) (purge now r) refl
          (deadlines-Later now (purge now r) fresh),
    )

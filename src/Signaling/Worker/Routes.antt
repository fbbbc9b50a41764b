-- ===== src/Signaling/Worker/Routes.antt =====
-- Which requests reach a room, and which origins may read an answer.
use laptop_as_a_second_monit.Common.{
  ℕ, ◌≡◌, refl, ap, ◌⊎◌, inl, inr, ◌≢◌, Bool, true, false, none, some, List, [], ◌∷◌, ◌++◌, Str,
  codes, str_eq, str_eq_iff, any, ◌==◌, arith, All, Bool-cases, Option-cases,
}
use laptop_as_a_second_monit.Protocol.Pattern.{is_room}
use laptop_as_a_second_monit.Protocol.Hex.{Digest, sha256_hex}
use laptop_as_a_second_monit.Signaling.Directory.{lookup}
use laptop_as_a_second_monit.Protocol.Message.{PairResponse, paired, pair_error}
use laptop_as_a_second_monit.Signaling.Room.State.{Input}
use laptop_as_a_second_monit.Signaling.Room.Pairing.{claim}
use laptop_as_a_second_monit.Signaling.Worker.{
  World, Request, Response, split_commas, is_allowed, is_filled, cors, json_response, pair_response,
  claim_room, pair_hash, pair_code, sent_code, pair, room_of_path, is_web_socket, open_room,
  upgrade_room, is_denied, worker_fetch,
}

-- The list of origins, as the setting writes it.
abbrev pub join_commas : Str → List Str → Str
join_commas t [] = t
join_commas t (u ∷ us) = t ++ b',' ∷ join_commas u us

abbrev pub HasNoComma : Str → Type 0
HasNoComma t = All (λ c. c ≢ b',') t

split_commas_some : (s : Str) → (t : Str) × (ts : List Str) × (split_commas s ≡ t ∷ ts)
unfolding split_commas
split_commas_some [] = ([], [], refl)
split_commas_some (c ∷ s) =
    let (t, ts, e) = split_commas_some s in
    elim (Bool-cases (c == b',')) [
      | inl k ↦ ([], t ∷ ts, rw (e, split_commas) (rw k))
      | inr k ↦ (c ∷ t, ts, rw (e, split_commas) (rw k))
    ]

split_commas_word : (t : Str) → HasNoComma t → split_commas t ≡ t ∷ []
unfolding split_commas
split_commas_word [] h = refl
split_commas_word (c ∷ t) (h, hs) = rw (split_commas_word t hs, split_commas) (ground arith)

split_commas_more : (t s : Str) → HasNoComma t → split_commas (t ++ b',' ∷ s) ≡ t ∷ split_commas s
unfolding split_commas
split_commas_more [] s h = let (t, ts, e) = split_commas_some s in rw (e, split_commas) refl
split_commas_more (c ∷ t) s (h, hs) = rw (split_commas_more t s hs, split_commas) (ground arith)

split_commas-join :
    (t : Str) (us : List Str)
    → HasNoComma t
    → All HasNoComma us
    → split_commas (join_commas t us) ≡ t ∷ us
split_commas-join t [] h hs = split_commas_word t h
split_commas-join t (u ∷ us) h (k, hs) =
    rw (split_commas_more t (join_commas u us) h) (ap (λ r. t ∷ r) (split_commas-join u us k hs))

-- Where the allowed origins are a list joined by commas, an origin is allowed exactly if it equals one
-- of the list.
pub is_allowed-join :
    (t : Str) (us : List Str) (o : Str)
    → HasNoComma t
    → All HasNoComma us
    → is_allowed (join_commas t us) o ≡ any (str_eq o) (t ∷ us)
unfolding is_allowed
is_allowed-join t us o h hs = rw (split_commas-join t us h hs)

-- The answer names no origin, or the one that `cors` does.
module _ (allowed : Str) (q : Request) where
  abbrev IsOwn : Response → Type 0
  IsOwn res = (res.allow_origin ≡ none) ⊎ (res.allow_origin ≡ cors allowed q.origin)

  -- Nor does an answer to "/pair" open a socket.
  abbrev IsPairAnswer : Response → Type 0
  IsPairAnswer res = IsOwn res × (res.status ≢ 101)

  pair_response-IsPairAnswer :
      (answer : PairResponse) → IsPairAnswer (pair_response allowed q answer)
  unfolding pair_response json_response
  pair_response-IsPairAnswer (pair_error e) = (inr refl, ground arith)
  pair_response-IsPairAnswer (paired room ticket) = (inr refl, omega arith)

  claim_room-IsPairAnswer :
      (digest : Digest) (input : Input) (hash room : Str) (w : World)
      → IsPairAnswer (claim_room digest allowed input q hash room w).1
  unfolding claim_room
  claim_room-IsPairAnswer digest input hash room w =
      pair_response-IsPairAnswer (claim digest input hash (w.rooms room)).1

  pair_hash-IsPairAnswer :
      (digest : Digest) (input : Input) (hash : Str) (w : World)
      → IsPairAnswer (pair_hash digest allowed input q hash w).1
  unfolding pair_hash json_response
  pair_hash-IsPairAnswer digest input hash w =
      elim (Option-cases (lookup input.now (w.directory hash))) [
        | inl e ↦ rw (e, pair_hash) ((inr refl, omega arith))
        | inr (room, e) ↦ elim (Bool-cases (is_filled room)) [
          | inl k ↦ rw (e, pair_hash) (rw k (claim_room-IsPairAnswer digest input hash room w))
          | inr k ↦ rw (e, pair_hash) (rw k ((inr refl, omega arith)))
        ]
      ]

  pair_code-IsPairAnswer :
      (other : ℕ → Str) (digest : Digest) (input : Input) (w : World)
      → IsPairAnswer (pair_code other digest allowed input q w).1
  unfolding pair_code json_response
  pair_code-IsPairAnswer other digest input w =
      ground
        (arith, pair_hash-IsPairAnswer digest input (sha256_hex digest (sent_code other q.code)) w)

  pair-IsPairAnswer :
      (other : ℕ → Str) (digest : Digest) (within : Bool) (input : Input) (w : World)
      → IsPairAnswer (pair other digest allowed within input q w).1
  unfolding pair json_response
  pair-IsPairAnswer other digest within input w =
      ground (arith, pair_code-IsPairAnswer other digest input w)

  upgrade_room-IsOwn : (now : ℕ) (w : World) → IsOwn (upgrade_room now q w).1
  unfolding upgrade_room open_room
  upgrade_room-IsOwn now w = ground arith

-- An origin may read an answer that names it: only one that the request came from and that the list
-- of allowed origins holds is ever named.
pub worker_fetch-allow_origin :
    (other : ℕ → Str) (digest : Digest) (allowed : Str) (within : Bool) (input : Input)
    (q : Request) (w : World) (o : Str)
    → (worker_fetch other digest allowed within input q w).1.allow_origin ≡ some o
    → (q.origin ≡ some o) × (is_allowed allowed o ≡ true)
unfolding worker_fetch cors
worker_fetch-allow_origin other digest allowed within input q w o h = ground (
  arith,
  pair-IsPairAnswer allowed q other digest within input w,
  upgrade_room-IsOwn allowed q input.now w,
)

-- The conditions on a request that opens a socket in a room.
pub record OpensRoom (allowed : Str) (q : Request) : Type 0 where
  pub name : Str
  pub path : room_of_path q.pathname ≡ some name
  pub format : is_room name ≡ true
  pub method : q.method ≡ codes "GET"
  pub search : q.search ≡ []
  pub upgrade : is_web_socket q.upgrade ≡ true
  pub origin : is_denied allowed q.origin ≡ false

upgrade_room-101 :
    (now : ℕ) (q : Request) (w : World)
    → (upgrade_room now q w).1.status ≡ 101
    → (name : Str) × (room_of_path q.pathname ≡ some name)
      × (is_room name ≡ true)
      × (q.method ≡ codes "GET")
      × (q.search ≡ [])
      × (is_web_socket q.upgrade ≡ true)
unfolding upgrade_room
upgrade_room-101 now q w h = elim (Option-cases (room_of_path q.pathname)) [
  | inl e ↦ absurd (ground arith)
  | inr (name, e) ↦
      let method : str_eq q.method (codes "GET") ≡ true = ground arith in
      (
        name,
        e,
        ground arith,
        (str_eq_iff q.method (codes "GET")).0 method,
        ground arith,
        ground arith,
      )
]

-- Only a GET request for "/room/" and 32 lower-case hexadecimal digits, without a query, with the
-- upgrade header and without a forbidden origin, is answered by 101.
pub worker_fetch-OpensRoom :
    (other : ℕ → Str) (digest : Digest) (allowed : Str) (within : Bool) (input : Input)
    (q : Request) (w : World)
    → (worker_fetch other digest allowed within input q w).1.status ≡ 101
    → OpensRoom allowed q
unfolding worker_fetch
worker_fetch-OpensRoom other digest allowed within input q w h =
    let no_pair = (pair-IsPairAnswer allowed q other digest within input w).1 in
    let opened : (upgrade_room input.now q w).1.status ≡ 101 = ground arith in
    let (name, path, format, method, search, upgrade) = upgrade_room-101 input.now q w opened in
    record {
      name = name;
      path = path;
      format = format;
      method = method;
      search = search;
      upgrade = upgrade;
      origin = ground arith;
    }

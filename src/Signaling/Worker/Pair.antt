-- ===== src/Signaling/Worker/Pair.antt =====
-- From the host's registration of a code to the viewer's ticket, across the three objects.
use laptop_as_a_second_monit.Common.{
  ℕ, ◌+◌, ◌<◌, ◌≡◌, refl, ap, ◌∙◌, ◌≢◌, true, false, some, [], ◌∷◌, Str, codes, str_eq, str_eq_refl,
  arith,
}
use laptop_as_a_second_monit.Protocol.Pattern.{is_code}
use laptop_as_a_second_monit.Protocol.Code.Laws.{Typed, normalize_code-Typed}
use laptop_as_a_second_monit.Protocol.Hex.{Digest, sha256_hex}
use laptop_as_a_second_monit.Protocol.Message.{paired, host, viewer, CodeRegistration}
use laptop_as_a_second_monit.Signaling.Directory.{Directory, lookup, register as register_code}
use laptop_as_a_second_monit.Signaling.Directory.Laws.{lookup_registered}
use laptop_as_a_second_monit.Signaling.Room.State.{Input, Room, peers, is_empty}
use laptop_as_a_second_monit.Signaling.Room.Pairing.{
  claim, throttled, code_valid, active_codes, issue_ticket,
}
use laptop_as_a_second_monit.Signaling.Room.Pairing.Tickets.{IsDigest, fits_own_hash}
use laptop_as_a_second_monit.Signaling.Room.Message.Dispatch.{set_codes, registrations}
use laptop_as_a_second_monit.Signaling.Worker.{
  World, Request, json, update, cors, json_response, pair_response, claim_room, pair_hash,
  pair_code, pair, sent_code, apply_effects,
}

pub update_same {ℓ} : {A : Type ℓ} (k : Str) (v : A) (f : Str → A) → update k v f k ≡ v
unfolding update
update_same k v f = rw (str_eq_refl k)

-- The world after the host of a room has sent "codes" with one code.
abbrev pub host_registers : ℕ → Str → CodeRegistration → World → World
host_registers now name c w =
    let (r, sent) = set_codes now (c ∷ []) (w.rooms name) in
    apply_effects now sent (record w { rooms = update name r w.rooms })

pub registered_room :
    (now : ℕ) (name : Str) (c : CodeRegistration) (w : World)
    → (host_registers now name c w).rooms name ≡ (set_codes now (c ∷ []) (w.rooms name)).0
unfolding set_codes apply_effects registrations
registered_room now name c w = update_same name _ w.rooms

registered_code :
    (now : ℕ) (name : Str) (c : CodeRegistration) (w : World)
    → (host_registers now name c w).directory c.hash
      ≡ register_code now (w.rooms name).name c.ttl_ms (w.directory c.hash)
unfolding set_codes apply_effects registrations
registered_code now name c w = update_same c.hash _ w.directory

-- A claim with a code that the room holds.
claim_granted :
    (digest : Digest) (input : Input) (hash : Str) (r : Room)
    → throttled input.now r ≡ false
    → code_valid input.now hash r ≡ true
    → is_empty (peers host r.sockets) ≡ false
    → is_empty (peers viewer r.sockets) ≡ true
    → (claim digest input hash r).1 ≡ paired r.name input.random_hex
unfolding claim issue_ticket
claim_granted digest input hash r t v h e = ground arith

-- Registering codes leaves the throttle and the peers alone, and the code is valid until it expires.
set_codes_ready :
    (digest : Digest) (first later : ℕ) (code : Str) (ttl_ms : ℕ) (r : Room)
    → IsDigest digest
    → later < first + ttl_ms
    → code_valid later
        (sha256_hex digest code)
        (set_codes first (record { hash = sha256_hex digest code; ttl_ms = ttl_ms } ∷ []) r).0
      ≡ true
unfolding set_codes code_valid active_codes
set_codes_ready digest first later code ttl_ms r sha h =
    ground (arith, fits_own_hash digest code sha)

lookup_live :
    (d : Directory) (room : Str) (ttl_ms now later : ℕ)
    → later < now + ttl_ms
    → lookup later (register_code now room ttl_ms d) ≡ some room
lookup_live d room ttl_ms now later h = ground (arith, lookup_registered d room ttl_ms now later)

-- A claim goes to the room that the entry of the hash names.
pub pair_hash-claim_room :
    (digest : Digest) (allowed : Str) (input : Input) (q : Request) (hash name : Str) (w : World)
    → lookup input.now (w.directory hash) ≡ some name
    → name ≢ []
    → pair_hash digest allowed input q hash w ≡ claim_room digest allowed input q hash name w
unfolding pair_hash
pair_hash-claim_room digest allowed input q hash [] w e h = absurd (h refl)
pair_hash-claim_room digest allowed input q hash (x ∷ name) w e h = rw (e, pair_hash) refl

-- A POST request with a code goes to the entry of the code's hash.
pub pair-pair_hash :
    (other : ℕ → Str) (digest : Digest) (allowed : Str) (input : Input) (q : Request) (code : Str)
    (w : World)
    → is_code code ≡ true
    → q.method ≡ codes "POST"
    → sent_code other q.code ≡ code
    → pair other digest allowed true input q w
      ≡ pair_hash digest allowed input q (sha256_hex digest code) w
unfolding pair pair_code str_eq
pair-pair_hash other digest allowed input q code w format post same = ground arith

-- After a host's registration, a claim with the code is answered by a ticket.
pub claim_registered :
    (digest : Digest) (name code : Str) (first ttl_ms : ℕ) (input : Input) (w : World)
    → IsDigest digest
    → (w.rooms name).name ≡ name
    → input.now < first + ttl_ms
    → throttled input.now (w.rooms name) ≡ false
    → is_empty (peers host (w.rooms name).sockets) ≡ false
    → is_empty (peers viewer (w.rooms name).sockets) ≡ true
    → let hash = sha256_hex digest code in
      let v = host_registers first name (record { hash = hash; ttl_ms = ttl_ms }) w in
      (lookup input.now (v.directory hash) ≡ some name)
      × ((claim digest input hash (v.rooms name)).1 ≡ paired name input.random_hex)
unfolding set_codes throttled
claim_registered digest name code first ttl_ms input w sha named valid calm hosts viewers =
    let c : CodeRegistration = record { hash = sha256_hex digest code; ttl_ms = ttl_ms } in
    let found = lookup_live (w.directory c.hash) (w.rooms name).name ttl_ms first input.now valid in
    (
      rw (registered_code first name c w) (found ∙ ap some named),
      rw (registered_room first name c w) (
          claim_granted digest input c.hash (set_codes first (c ∷ []) (w.rooms name)).0 calm
            (set_codes_ready digest first input.now code ttl_ms (w.rooms name) sha valid) hosts
            viewers
          ∙ ap (λ n. paired n input.random_hex) named),
    )

-- Once a connected host of a room has registered a code, a viewer that types it, in either case and
-- with separators, is sent the room and a ticket, for as long as the code is valid, the room is not
-- throttled, it has no viewer and the client's address is within its limit.
pub pair-registered :
    (other : ℕ → Str) (digest : Digest) (allowed name code typed : Str) (first ttl_ms : ℕ)
    (input : Input) (q : Request) (w : World)
    → IsDigest digest
    → is_code code ≡ true
    → Typed typed code
    → q.method ≡ codes "POST"
    → q.code ≡ some typed
    → (w.rooms name).name ≡ name
    → name ≢ []
    → input.now < first + ttl_ms
    → throttled input.now (w.rooms name) ≡ false
    → is_empty (peers host (w.rooms name).sockets) ≡ false
    → is_empty (peers viewer (w.rooms name).sockets) ≡ true
    → (pair other digest allowed true input q
        (host_registers first name (record { hash = sha256_hex digest code; ttl_ms = ttl_ms }) w)).1
      ≡ record {
        status = 200;
        body = json (paired name input.random_hex);
        allow_origin = cors allowed q.origin;
      }
unfolding claim_room pair_response json_response
pair-registered other digest allowed name code typed first ttl_ms input q w sha format types post
      sent named filled valid calm hosts viewers =
    let hash = sha256_hex digest code in
    let v = host_registers first name (record { hash = hash; ttl_ms = ttl_ms }) w in
    let (entry, granted) =
      claim_registered digest name code first ttl_ms input w sha named valid calm hosts viewers in
    ap (λ o. o.1)
      (pair-pair_hash other digest allowed input q code v format post
          (rw sent (normalize_code-Typed other types))
        ∙ pair_hash-claim_room digest allowed input q hash name v entry filled)
    ∙ ap (pair_response allowed q) granted

-- ===== src/Protocol/Encode/Laws.antt =====
-- What `parseClient` accepts is allowed, and what is allowed it accepts unchanged.
use laptop_as_a_second_monit.Common.{
  ℕ, ◌≤◌, ◌<◌, ◌≡◌, refl, subst, Bool, true, Option, none, some, List, [], ◌∷◌, Str, codes, length,
  All, arith, Option-cases, inl, inr,
}
use laptop_as_a_second_monit.Protocol.Json.{
  Json, Members, object, get, is_text, members_of, items_of, bounded_text,
}
use laptop_as_a_second_monit.Protocol.Message.{
  SdpType, offer, answer, CodeRegistration, ClientMessage, max_message,
}
use laptop_as_a_second_monit.Protocol.Pattern.{is_generation, is_hash, is_secret, is_token}
use laptop_as_a_second_monit.Protocol.Parse.{
  Result, ok, err, utf8_length, matching, parse_auth, valid_ttl, parse_registration,
  parse_registrations, parse_codes, parse_sdp, parse_ice, parse_state, parse_generation,
  parse_about, parse_members, parse_client, malformed, or_err, ◌>>=◌,
}
use laptop_as_a_second_monit.Protocol.Encode.{IsLive, IsRegistration, IsAllowed}

-- The tests return what passes them.
matching_sound :
    (re : Str → Bool) (x : Option Json) {s : Str} → matching re x ≡ some s → re s ≡ true
unfolding matching
matching_sound re x h = ground arith

bounded_text_sound :
    (x : Option Json) (n : ℕ) {s : Str}
    → bounded_text x n ≡ some s
    → (0 < length s) × (length s ≤ n)
unfolding bounded_text
bounded_text_sound x n h = ground arith

parse_generation_sound :
    (m : Members) {g : Str} → parse_generation m ≡ some g → is_generation g ≡ true
unfolding parse_generation
parse_generation_sound m h = ground arith

IsLive-sound : (x : Option Json) → IsLive (matching is_generation x)
IsLive-sound x = elim (Option-cases (matching is_generation x)) [
  | inl e ↦ rw e tt
  | inr (g, e) ↦ rw e (matching_sound is_generation x e)
]

-- A result that holds no message that is not allowed.
abbrev Allows : Result ClientMessage → Type 0
Allows (ok c) = IsAllowed c
Allows (err e) = Unit

parse_auth_sound : (m : Members) → Allows (parse_auth m)
unfolding parse_auth
parse_auth_sound m = ground (
  arith,
  IsLive-sound (get (codes "live") m),
  matching_sound is_secret (get (codes "secret") m),
  matching_sound is_token (get (codes "ticket") m),
  matching_sound is_token (get (codes "token") m),
)

abbrev AllowsIf : Option ClientMessage → Type 0
AllowsIf (some c) = IsAllowed c
AllowsIf none = Unit

parse_sdp_sound :
    (t : SdpType) (fits : Bool) (g : Str) (m : Members)
    → is_generation g ≡ true
    → AllowsIf (parse_sdp t fits g m)
unfolding parse_sdp
parse_sdp_sound t fits g m k = elim (Option-cases (bounded_text (get (codes "sdp") m) 20000)) [
  | inl e ↦ rw (e, AllowsIf) tt
  | inr (s, e) ↦ rw (e, AllowsIf) (ground (arith, bounded_text_sound _ 20000 e))
]

parse_ice_sound :
    (fits : Bool) (g : Str) (m : Members) → is_generation g ≡ true → AllowsIf (parse_ice fits g m)
unfolding parse_ice
parse_ice_sound fits g m k = elim (Option-cases (bounded_text (get (codes "candidate") m) 2048)) [
  | inl e ↦ rw (e, AllowsIf) tt
  | inr (c, e) ↦ elim (Option-cases (bounded_text (get (codes "mid") m) 64)) [
    | inl o ↦ rw (e, AllowsIf) (rw (o, AllowsIf) tt)
    | inr (i, o) ↦
        rw (e, AllowsIf)
          (rw (o, AllowsIf)
            (ground (arith, bounded_text_sound _ 2048 e, bounded_text_sound _ 64 o)))
  ]
]

parse_state_sound :
    (fits : Bool) (g : Str) (m : Members) → is_generation g ≡ true → AllowsIf (parse_state fits g m)
unfolding parse_state
parse_state_sound fits g m k = ground arith

parse_about_sound : (type : Option Json) (m : Members) → Allows (parse_about type m)
unfolding parse_about
parse_about_sound type m = elim (Option-cases (parse_generation m)) [
  | inl e ↦ rw e tt
  | inr (g, e) ↦ rw e (
      let k = parse_generation_sound m e in
      ground (
        arith,
        parse_state_sound (is_text type (codes "state")) g m k,
        parse_sdp_sound offer (is_text type (codes "offer")) g m k,
        parse_sdp_sound answer (is_text type (codes "answer")) g m k,
        parse_ice_sound (is_text type (codes "ice")) g m k,
      ))
]

valid_ttl_sound : (x : Option Json) {n : ℕ} → valid_ttl x ≡ some n → (0 < n) × (n ≤ 600000)
unfolding valid_ttl
valid_ttl_sound x h = ground arith

abbrev Registers : Option CodeRegistration → Type 0
Registers (some r) = IsRegistration r
Registers none = Unit

parse_registration_sound : (c : Json) → Registers (parse_registration c)
unfolding parse_registration members_of
parse_registration_sound (object fs) = ground (
  arith,
  matching_sound is_hash (get (codes "hash") fs),
  valid_ttl_sound (get (codes "ttlMs") fs),
)
parse_registration_sound _ = tt

-- As many registrations as elements, each well-formed.
abbrev AllowsCodes : ℕ → Result (List CodeRegistration) → Type 0
AllowsCodes n (ok rs) = (length rs ≡ n) × All IsRegistration rs
AllowsCodes n (err e) = Unit

parse_registrations_sound : (cs : List Json) → AllowsCodes (length cs) (parse_registrations cs)
unfolding parse_registrations
parse_registrations_sound [] = (refl, tt)
parse_registrations_sound (c ∷ cs) =
    ground (arith, parse_registration_sound c, parse_registrations_sound cs)

parse_codes_sound : (m : Members) → Allows (parse_codes m)
unfolding parse_codes
parse_codes_sound m = elim (Option-cases (items_of (get (codes "codes") m))) [
  | inl e ↦ rw (e, Allows) tt
  | inr (cs, e) ↦ rw (e, Allows) (ground (arith, parse_registrations_sound cs))
]

parse_members_sound : (m : Members) → Allows (parse_members m)
unfolding parse_members
parse_members_sound m =
    ground
      (arith, parse_auth_sound m, parse_codes_sound m, parse_about_sound (get (codes "type") m) m)

parse_members_client :
    (v : Json) {c : ClientMessage}
    → (or_err (members_of v) malformed >>= parse_members) ≡ ok c
    → (m : Members) × (parse_members m ≡ ok c)
unfolding members_of
parse_members_client (object m) h = (m, h)
parse_members_client _ h = cc

parse_client_members :
    (json_parse : Str → Option Json) (raw : Str) {c : ClientMessage}
    → parse_client json_parse raw ≡ ok c
    → (utf8_length raw ≤ max_message) × (m : Members) × (parse_members m ≡ ok c)
unfolding parse_client
parse_client_members json_parse raw {c} h = elim (Option-cases (json_parse raw)) [
  | inl e ↦ absurd (ground arith)
  | inr (v, e) ↦
      let short : utf8_length raw ≤ max_message = ground arith in
      let (m, k) = parse_members_client v {c = c} (ground arith) in (short, m, k)
]

-- Whatever `JSON.parse` returns, a message that `parseClient` returns came in at most 24 KiB of
-- UTF-8, and is allowed: texts within their formats and lengths, at most two codes of at most ten
-- minutes, and exactly one of a ticket and a token.
pub parse_client-IsAllowed :
    (json_parse : Str → Option Json) (raw : Str) {c : ClientMessage}
    → parse_client json_parse raw ≡ ok c
    → (utf8_length raw ≤ max_message) × IsAllowed c
parse_client-IsAllowed json_parse raw h =
    let (short, m, e) = parse_client_members json_parse raw h in
    (short, subst Allows e (parse_members_sound m))

-- ===== src/Protocol/Parse.antt =====
-- `parseClient` of shared/protocol.ts. `JSON.parse` is an argument: any function from a text to a
-- value, `none` where it throws.
use laptop_as_a_second_monit.Common.{
  ◌≡◌, ◌⊎◌, inl, inr, refl, ℕ, ◌+◌, Bool, Option, none, some, List, [], ◌∷◌, Str, codes, length,
  ltb, leb, ◌&&◌, if◌then◌else◌, in_range, when, is_none, starts_with,
}
use laptop_as_a_second_monit.Protocol.Json.{
  Json, Members, whole, number, get, is_text, text_of, is_number, boolean_of, members_of, items_of,
  bounded_text,
}
use laptop_as_a_second_monit.Protocol.Message.{
  max_message, protocol_version, max_codes, max_code_ttl_ms, offer, answer, SdpType, description,
  ice, CodeRegistration, ClientMessage, auth_host, auth_viewer, register_codes, kick, state, relay,
}
use laptop_as_a_second_monit.Protocol.Pattern.{
  is_secret, is_token, is_hash, is_generation, is_sdp, candidate_prefix,
}

-- The errors that `parseClient` throws, with the syntax error of `JSON.parse`.
pub data ParseError : Type 0 where
  oversized syntax malformed version generation : ParseError

pub data Result {ℓ} (A : Type ℓ) : Type ℓ where
  ok : A → Result A
  err : ParseError → Result A

infixl 5 ◌>>=◌
abbrev pub ◌>>=◌ {ℓ κ} : {A : Type ℓ} {B : Type κ} → Result A → (A → Result B) → Result B
ok a >>= f = f a
err e >>= f = err e

pub Result-cases {ℓ} :
    {A : Type ℓ} (x : Result A) → ((a : A) × (x ≡ ok a)) ⊎ ((e : ParseError) × (x ≡ err e))
Result-cases (ok a) = inl (a, refl)
Result-cases (err e) = inr (e, refl)

abbrev pub or_err {ℓ} : {A : Type ℓ} → Option A → ParseError → Result A
or_err (some a) e = ok a
or_err none e = err e

abbrev pub or_else {ℓ} : {A : Type ℓ} → Option A → Result A → Result A
or_else (some a) r = ok a
or_else none r = r

-- `new TextEncoder().encode(s).byteLength`: three bytes for a lone surrogate, four for a pair.
unfoldable pub utf8_length : Str → ℕ
utf8_length [] = 0
utf8_length (c ∷ []) = if ltb c 128 then 1 else if ltb c 2048 then 2 else 3
utf8_length (c ∷ d ∷ s) =
    let pair = 4 + utf8_length s in
    let single = (if ltb c 128 then 1 else if ltb c 2048 then 2 else 3) + utf8_length (d ∷ s) in
    if in_range 0xd800 0xdbff c && in_range 0xdc00 0xdfff d then pair else single

-- `typeof x === "string" && RE.test(x)`, with the string.
unfoldable pub matching : (Str → Bool) → Option Json → Option Str
matching re x = elim (text_of x) [ none ↦ none | some s ↦ if re s then some s else none ]

-- The three accepted shapes of "auth", each `none` where its test fails.
unfoldable pub parse_auth : Members → Result ClientMessage
unfolding matching
parse_auth m =
    let live = matching is_generation (get (codes "live") m) in
    let ticket = get (codes "ticket") m in
    let token = get (codes "token") m in
    let viewer =
      is_text (get (codes "role") m) (codes "viewer") && is_none (get (codes "secret") m) in
    let by_secret =
      when (is_text (get (codes "role") m) (codes "host"))
        (matching is_secret (get (codes "secret") m)) in
    let by_ticket = when (viewer && is_none token) (matching is_token ticket) in
    let by_token = when (viewer && is_none ticket) (matching is_token token) in
    if is_number (get (codes "version") m) protocol_version
    then elim by_secret [
      | some s ↦ ok (auth_host s live)
      | none ↦ elim by_ticket [
        | some t ↦ ok (auth_viewer (some t) none live)
        | none ↦ elim by_token [
          | some t ↦ ok (auth_viewer none (some t) live)
          | none ↦ err malformed
        ]
      ]
    ]
    else err version

-- `typeof x === "number" && Number.isInteger(x) && 0 < x && x <= MAX_CODE_TTL_MS`, with the number.
unfoldable pub valid_ttl : Option Json → Option ℕ
valid_ttl (some (number (whole n))) = if ltb 0 n && leb n max_code_ttl_ms then some n else none
valid_ttl _ = none

-- The body of the loop over `m.codes`.
unfoldable pub parse_registration : Json → Option CodeRegistration
unfolding valid_ttl matching
parse_registration c = elim (members_of c) [
  | none ↦ none
  | some fs ↦ elim (matching is_hash (get (codes "hash") fs)) [
    | none ↦ none
    | some h ↦ elim (valid_ttl (get (codes "ttlMs") fs)) [
      | none ↦ none
      | some n ↦ some (record { hash = h; ttl_ms = n })
    ]
  ]
]

unfoldable pub parse_registrations : List Json → Result (List CodeRegistration)
parse_registrations [] = ok []
parse_registrations (c ∷ cs) = do
  r ← or_err (parse_registration c) malformed
  rs ← parse_registrations cs
  ok (r ∷ rs)

unfoldable pub parse_codes : Members → Result ClientMessage
parse_codes m = elim (items_of (get (codes "codes") m)) [
  | none ↦ err malformed
  | some cs ↦
      if ltb max_codes (length cs)
      then err malformed
      else do rs ← parse_registrations cs; ok (register_codes rs)
]

-- A description of type `t`, where the type, the length and the first line fit.
unfoldable pub parse_sdp : SdpType → Bool → Str → Members → Option ClientMessage
parse_sdp t fits g m = elim (bounded_text (get (codes "sdp") m) 20000) [
  | none ↦ none
  | some s ↦ if fits && is_sdp s then some (relay (description t g s)) else none
]

unfoldable pub parse_ice : Bool → Str → Members → Option ClientMessage
parse_ice fits g m = elim (bounded_text (get (codes "candidate") m) 2048) [
  | none ↦ none
  | some c ↦ elim (bounded_text (get (codes "mid") m) 64) [
    | none ↦ none
    | some i ↦ if fits && starts_with c candidate_prefix then some (relay (ice g c i)) else none
  ]
]

unfoldable pub parse_state : Bool → Str → Members → Option ClientMessage
parse_state fits g m = elim (boolean_of (get (codes "live") m)) [
  | none ↦ none
  | some b ↦ if fits then some (state g b) else none
]

-- `str(m.generation, 36) && GENERATION_RE.test(m.generation)`, with the string.
unfoldable pub parse_generation : Members → Option Str
parse_generation m = elim (bounded_text (get (codes "generation") m) 36) [
  | none ↦ none
  | some g ↦ if is_generation g then some g else none
]

-- The messages about a generation.
unfoldable pub parse_about : Option Json → Members → Result ClientMessage
parse_about type m = do
  g ← or_err (parse_generation m) generation
  or_else (parse_state (is_text type (codes "state")) g m) (
      or_else (parse_sdp offer (is_text type (codes "offer")) g m) (
        or_else (parse_sdp answer (is_text type (codes "answer")) g m)
          (or_else (parse_ice (is_text type (codes "ice")) g m) (err malformed))))

unfoldable pub parse_members : Members → Result ClientMessage
parse_members m =
    let type = get (codes "type") m in
    if is_text type (codes "auth")
    then parse_auth m
    else if is_text type (codes "codes")
    then parse_codes m
    else if is_text type (codes "kick")
    then ok kick
    else parse_about type m

unfoldable pub parse_client : (Str → Option Json) → Str → Result ClientMessage
parse_client json_parse raw =
    if ltb max_message (utf8_length raw)
    then err oversized
    else do v ← or_err (json_parse raw) syntax; m ← or_err (members_of v) malformed; parse_members m

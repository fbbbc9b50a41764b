-- ===== src/Protocol/Encode.antt =====
-- The messages that a client may send, as values, and the JSON that stands for them.
pub mod Laws
pub mod Complete
use laptop_as_a_second_monit.Common.{
  ℕ, ◌≤◌, ◌<◌, ◌≡◌, Bool, true, false, Option, none, some, List, [], ◌∷◌, Str, codes, length, All,
  starts_with,
}
use laptop_as_a_second_monit.Protocol.Json.{
  Json, Members, Items, Number, whole, number, string, boolean, array, object, no_items, item,
  no_members, member,
}
use laptop_as_a_second_monit.Protocol.Message.{
  max_codes, max_code_ttl_ms, SdpType, offer, answer, Relay, description, ice, CodeRegistration,
  ClientMessage, auth_host, auth_viewer, register_codes, kick, state, relay,
}
use laptop_as_a_second_monit.Protocol.Pattern.{
  is_secret, is_token, is_hash, is_generation, is_sdp, candidate_prefix,
}

abbrev pub IsLive : Option Str → Type 0
IsLive none = Unit
IsLive (some g) = is_generation g ≡ true

abbrev pub IsRegistration : CodeRegistration → Type 0
IsRegistration r = (is_hash r.hash ≡ true) × (0 < r.ttl_ms) × (r.ttl_ms ≤ max_code_ttl_ms)

abbrev pub IsRelay : Relay → Type 0
IsRelay (description t g s) =
    (is_generation g ≡ true) × (0 < length s) × (length s ≤ 20000) × (is_sdp s ≡ true)
IsRelay (ice g c i) =
    (is_generation g ≡ true)
    × (0 < length c)
    × (length c ≤ 2048)
    × (starts_with c candidate_prefix ≡ true)
    × (0 < length i)
    × (length i ≤ 64)

-- What the protocol allows a client to say: exactly one of a ticket and a token, at most two codes
-- of at most ten minutes, and texts within their formats and lengths.
abbrev pub IsAllowed : ClientMessage → Type 0
IsAllowed (auth_host secret live) = (is_secret secret ≡ true) × IsLive live
IsAllowed (auth_viewer (some ticket) none live) = (is_token ticket ≡ true) × IsLive live
IsAllowed (auth_viewer none (some token) live) = (is_token token ≡ true) × IsLive live
IsAllowed (auth_viewer _ _ live) = ⊥
IsAllowed (register_codes rs) = (length rs ≤ max_codes) × All IsRegistration rs
IsAllowed kick = Unit
IsAllowed (state g live) = is_generation g ≡ true
IsAllowed (relay r) = IsRelay r

abbrev pub text_member : Str → Str → Members → Members
text_member k s rest = member k (string s) rest

abbrev pub optional_member : Str → Option Str → Members → Members
optional_member k none rest = rest
optional_member k (some s) rest = text_member k s rest

abbrev pub sdp_type_name : SdpType → Str
sdp_type_name offer = codes "offer"
sdp_type_name answer = codes "answer"

abbrev pub encode_registration : CodeRegistration → Json
encode_registration r = object (
    text_member (codes "hash") r.hash (member (codes "ttlMs") (number (whole r.ttl_ms)) no_members))

unfoldable pub encode_registrations : List CodeRegistration → Items
encode_registrations [] = no_items
encode_registrations (r ∷ rs) = item (encode_registration r) (encode_registrations rs)

abbrev encode_auth : Str → Members → Members
encode_auth role rest =
    text_member (codes "type") (codes "auth")
      (member (codes "version") (number (whole 2)) (text_member (codes "role") role rest))

-- The object that `JSON.stringify` is given for a message.
unfoldable pub encode : ClientMessage → Members
unfolding encode_registrations
encode (auth_host secret live) =
    encode_auth (codes "host")
      (text_member (codes "secret") secret (optional_member (codes "live") live no_members))
encode (auth_viewer ticket token live) = encode_auth (codes "viewer") (
    optional_member (codes "ticket") ticket
      (optional_member (codes "token") token (optional_member (codes "live") live no_members)))
encode (register_codes rs) =
    text_member (codes "type") (codes "codes")
      (member (codes "codes") (array (encode_registrations rs)) no_members)
encode kick = text_member (codes "type") (codes "kick") no_members
encode (state g live) =
    text_member (codes "type") (codes "state")
      (member (codes "live") (boolean live) (text_member (codes "generation") g no_members))
encode (relay (description t g s)) =
    text_member (codes "type") (sdp_type_name t)
      (text_member (codes "sdp") s (text_member (codes "generation") g no_members))
encode (relay (ice g c i)) = text_member (codes "type") (codes "ice") (
    text_member (codes "generation") g
      (text_member (codes "candidate") c (text_member (codes "mid") i no_members)))

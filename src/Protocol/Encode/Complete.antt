-- ===== src/Protocol/Encode/Complete.antt =====
-- What is allowed, `parseClient` accepts unchanged, in whatever order its members stand.
use laptop_as_a_second_monit.Common.{
  ℕ, ◌≤◌, ◌≡◌, refl, ap, suc, Bool, true, Option, none, some, List, [], ◌∷◌, Str, codes, length,
  All, arith, str_eq,
}
use laptop_as_a_second_monit.Protocol.Json.{
  Items, number, whole, array, boolean, Json, Members, string, object, items, get, is_text, text_of,
  is_number, boolean_of, members_of, items_of, bounded_text,
}
use laptop_as_a_second_monit.Protocol.Message.{
  SdpType, offer, answer, description, ice, CodeRegistration, ClientMessage, auth_host, max_message,
  auth_viewer, register_codes, kick, state, relay,
}
use laptop_as_a_second_monit.Protocol.Pattern.{is_generation, repeats}
use laptop_as_a_second_monit.Protocol.Parse.{
  ok, utf8_length, parse_auth, parse_registration, parse_registrations, parse_codes, parse_sdp,
  parse_ice, parse_state, parse_generation, parse_about, parse_members, parse_client,
}
use laptop_as_a_second_monit.Protocol.Encode.{
  sdp_type_name, IsRegistration, IsAllowed, encode, encode_registrations,
}

repeats-length : (class : ℕ → Bool) (n : ℕ) (s : Str) → repeats class n s ≡ true → length s ≡ n
unfolding repeats
repeats-length class n s h = ground arith

generation-length : (g : Str) → is_generation g ≡ true → length g ≡ 36
generation-length g h = repeats-length _ 36 g h

-- A member is the text, or there is none.
abbrev pub Holds : Str → Option Str → Members → Type 0
Holds k none m = get k m ≡ none
Holds k (some s) m = get k m ≡ some (string s)

abbrev pub StandsRegistration : CodeRegistration → Json → Type 0
StandsRegistration r v =
    (fs : Members) × (v ≡ object fs)
    × Holds (codes "hash") (some r.hash) fs
    × (get (codes "ttlMs") fs ≡ some (number (whole r.ttl_ms)))

abbrev pub StandRegistrations : List CodeRegistration → List Json → Type 0
StandRegistrations [] [] = Unit
StandRegistrations (r ∷ rs) (v ∷ vs) = StandsRegistration r v × StandRegistrations rs vs
StandRegistrations _ _ = ⊥

-- The members of a message have its values. They stand in any order, and others may be there.
abbrev pub Stands : ClientMessage → Members → Type 0
Stands (auth_host secret live) m =
    Holds (codes "type") (some (codes "auth")) m
    × (get (codes "version") m ≡ some (number (whole 2)))
    × Holds (codes "role") (some (codes "host")) m
    × Holds (codes "secret") (some secret) m
    × Holds (codes "live") live m
Stands (auth_viewer ticket token live) m =
    Holds (codes "type") (some (codes "auth")) m
    × (get (codes "version") m ≡ some (number (whole 2)))
    × Holds (codes "role") (some (codes "viewer")) m
    × Holds (codes "secret") none m
    × Holds (codes "ticket") ticket m
    × Holds (codes "token") token m
    × Holds (codes "live") live m
Stands (register_codes rs) m =
    Holds (codes "type") (some (codes "codes")) m
    × ((vs : Items) × (get (codes "codes") m ≡ some (array vs)) × StandRegistrations rs (items vs))
Stands kick m = Holds (codes "type") (some (codes "kick")) m
Stands (state g live) m =
    Holds (codes "type") (some (codes "state")) m
    × Holds (codes "generation") (some g) m
    × (get (codes "live") m ≡ some (boolean live))
Stands (relay (description t g s)) m =
    Holds (codes "type") (some (sdp_type_name t)) m
    × Holds (codes "generation") (some g) m
    × Holds (codes "sdp") (some s) m
Stands (relay (ice g c i)) m =
    Holds (codes "type") (some (codes "ice")) m
    × Holds (codes "generation") (some g) m
    × Holds (codes "candidate") (some c) m
    × Holds (codes "mid") (some i) m

host_accepted :
    (secret : Str) (live : Option Str) (m : Members)
    → IsAllowed (auth_host secret live)
    → Stands (auth_host secret live) m
    → parse_members m ≡ ok (auth_host secret live)
unfolding parse_members str_eq is_text parse_auth text_of is_number
host_accepted secret none m h (t, v, r, s, l) = simp (t, v, r, s) (ground arith)
host_accepted secret (some g) m h (t, v, r, s, l) = simp (t, v, r, s) (ground arith)

viewer_accepted :
    (ticket token live : Option Str) (m : Members)
    → IsAllowed (auth_viewer ticket token live)
    → Stands (auth_viewer ticket token live) m
    → parse_members m ≡ ok (auth_viewer ticket token live)
unfolding parse_members str_eq is_text parse_auth text_of is_number
viewer_accepted (some t) none none m h (y, v, r, s, a, b, l) = simp (y, v, r, s) (ground arith)
viewer_accepted (some t) none (some g) m h (y, v, r, s, a, b, l) = simp (y, v, r, s) (ground arith)
viewer_accepted none (some t) none m h (y, v, r, s, a, b, l) = simp (y, v, r, s) (ground arith)
viewer_accepted none (some t) (some g) m h (y, v, r, s, a, b, l) = simp (y, v, r, s) (ground arith)
viewer_accepted none none live m h e = absurd h
viewer_accepted (some t) (some u) live m h e = absurd h

registration_accepted :
    (r : CodeRegistration) (v : Json)
    → IsRegistration r
    → StandsRegistration r v
    → parse_registration v ≡ some r
unfolding parse_registration members_of text_of
registration_accepted r v h (fs, e, k, t) = rw e (ground (arith, k, t))

registrations_accepted :
    (rs : List CodeRegistration) (vs : List Json)
    → All IsRegistration rs
    → StandRegistrations rs vs
    → (parse_registrations vs ≡ ok rs) × (length vs ≡ length rs)
unfolding parse_registrations
registrations_accepted [] [] h e = (refl, refl)
registrations_accepted (r ∷ rs) (v ∷ vs) (h, hs) (e, es) =
    let (a, b) = registrations_accepted rs vs hs es in
    (rw (registration_accepted r v h e) (rw a refl), ap suc b)
registrations_accepted [] (v ∷ vs) h e = absurd e
registrations_accepted (r ∷ rs) [] h e = absurd e

codes_accepted :
    (rs : List CodeRegistration) (m : Members)
    → IsAllowed (register_codes rs)
    → Stands (register_codes rs) m
    → parse_members m ≡ ok (register_codes rs)
unfolding parse_members str_eq is_text parse_codes items_of
codes_accepted rs m h (t, (vs, e, k)) =
    let (a, b) = registrations_accepted rs (items vs) h.1 k in simp t (ground (arith, e, a, b))

parse_generation_of :
    (m : Members) (g : Str)
    → get (codes "generation") m ≡ some (string g)
    → is_generation g ≡ true
    → parse_generation m ≡ some g
unfolding parse_generation bounded_text text_of
parse_generation_of m g e h = ground (arith, generation-length g h)

state_accepted :
    (g : Str) (live : Bool) (m : Members)
    → IsAllowed (state g live)
    → Stands (state g live) m
    → parse_members m ≡ ok (state g live)
unfolding parse_members str_eq is_text parse_about parse_state boolean_of
state_accepted g live m h (t, e, l) = simp t (ground (arith, parse_generation_of m g e h, l))

sdp_accepted :
    (t : SdpType) (g s : Str) (m : Members)
    → IsAllowed (relay (description t g s))
    → Stands (relay (description t g s)) m
    → parse_members m ≡ ok (relay (description t g s))
unfolding parse_members str_eq is_text parse_about parse_state boolean_of parse_sdp bounded_text
    text_of
sdp_accepted offer g s m h (t, e, l) = simp t (rw (parse_generation_of m g e h.0) (ground arith))
sdp_accepted answer g s m h (t, e, l) = simp t (rw (parse_generation_of m g e h.0) (ground arith))

ice_accepted :
    (g c i : Str) (m : Members)
    → IsAllowed (relay (ice g c i))
    → Stands (relay (ice g c i)) m
    → parse_members m ≡ ok (relay (ice g c i))
unfolding parse_members str_eq is_text parse_about parse_state boolean_of parse_sdp parse_ice
    bounded_text text_of
ice_accepted g c i m h (t, e, l, k) = simp t (rw (parse_generation_of m g e h.0) (ground arith))

members_accepted :
    (c : ClientMessage) (m : Members) → IsAllowed c → Stands c m → parse_members m ≡ ok c
members_accepted (auth_host secret live) m h e = host_accepted secret live m h e
members_accepted (auth_viewer ticket token live) m h e = viewer_accepted ticket token live m h e
members_accepted (register_codes rs) m h e = codes_accepted rs m h e
members_accepted kick m h e = unfold parse_members str_eq is_text in simp e refl
members_accepted (state g live) m h e = state_accepted g live m h e
members_accepted (relay (description t g s)) m h e = sdp_accepted t g s m h e
members_accepted (relay (ice g c i)) m h e = ice_accepted g c i m h e

-- A text of at most 24 KiB of UTF-8 that parses to an object with the values of an allowed message is
-- returned as that message, in whatever order the members stand, and with any others whose names
-- `parseClient` does not look at for a message of its kind.
pub parse_client_complete :
    (json_parse : Str → Option Json) (raw : Str) (c : ClientMessage) (m : Members)
    → utf8_length raw ≤ 24576
    → json_parse raw ≡ some (object m)
    → IsAllowed c
    → Stands c m
    → parse_client json_parse raw ≡ ok c
unfolding parse_client members_of
parse_client_complete json_parse raw c m short e h k = ground (arith, members_accepted c m h k)

encode_registrations-Stand :
    (rs : List CodeRegistration) → StandRegistrations rs (items (encode_registrations rs))
unfolding encode_registrations items get str_eq
encode_registrations-Stand [] = tt
encode_registrations-Stand (r ∷ rs) = ((_, refl, refl, refl), encode_registrations-Stand rs)

encode-Stands : (c : ClientMessage) → Stands c (encode c)
unfolding encode get str_eq
encode-Stands (auth_host secret none) = (refl, refl, refl, refl, refl)
encode-Stands (auth_host secret (some g)) = (refl, refl, refl, refl, refl)
encode-Stands (auth_viewer none none none) = (refl, refl, refl, refl, refl, refl, refl)
encode-Stands (auth_viewer none none (some g)) = (refl, refl, refl, refl, refl, refl, refl)
encode-Stands (auth_viewer none (some u) none) = (refl, refl, refl, refl, refl, refl, refl)
encode-Stands (auth_viewer none (some u) (some g)) = (refl, refl, refl, refl, refl, refl, refl)
encode-Stands (auth_viewer (some t) none none) = (refl, refl, refl, refl, refl, refl, refl)
encode-Stands (auth_viewer (some t) none (some g)) = (refl, refl, refl, refl, refl, refl, refl)
encode-Stands (auth_viewer (some t) (some u) none) = (refl, refl, refl, refl, refl, refl, refl)
encode-Stands (auth_viewer (some t) (some u) (some g)) = (refl, refl, refl, refl, refl, refl, refl)
encode-Stands (register_codes rs) = (refl, (_, refl, encode_registrations-Stand rs))
encode-Stands kick = refl
encode-Stands (state g live) = (refl, refl, refl)
encode-Stands (relay (description offer g s)) = (refl, refl, refl)
encode-Stands (relay (description answer g s)) = (refl, refl, refl)
encode-Stands (relay (ice g c i)) = (refl, refl, refl, refl)

-- What `JSON.stringify` makes of an allowed message is returned as that message.
pub parse_client-encode :
    (json_parse : Str → Option Json) (raw : Str) (c : ClientMessage)
    → utf8_length raw ≤ max_message
    → json_parse raw ≡ some (object (encode c))
    → IsAllowed c
    → parse_client json_parse raw ≡ ok c
parse_client-encode json_parse raw c short e h =
    parse_client_complete json_parse raw c (encode c) short e h (encode-Stands c)

-- ===== src/Protocol/Tests.antt =====
-- The properties of shared/protocol.ts at concrete messages, codes and digests.
use laptop_as_a_second_monit.Common.{
  ◌≤◌, ◌≡◌, refl, true, Option, some, [], ◌∷◌, Str, str_eq, codes, arith,
}
use laptop_as_a_second_monit.Protocol.Json.{
  Json, object, get, text_of, is_text, members_of, items_of, items, Members, member, array, item,
  number, whole, string, no_members, no_items, boolean,
}
use laptop_as_a_second_monit.Protocol.Message.{max_message, ClientMessage, register_codes}
use laptop_as_a_second_monit.Protocol.Parse.{
  parse_client, ok, utf8_length, parse_members, parse_codes, parse_registrations,
  parse_registration, valid_ttl, matching,
}
use laptop_as_a_second_monit.Protocol.Pattern.{is_hash, repeats}
use laptop_as_a_second_monit.Protocol.Encode.{IsAllowed, encode, encode_registrations}
use laptop_as_a_second_monit.Protocol.Encode.Laws.{parse_client-IsAllowed}
use laptop_as_a_second_monit.Protocol.Encode.Complete.{parse_client_complete}

-- 64 digits.
abbrev digits : Str
digits = codes "00112233445566778899aabbccddeeff00112233445566778899aabbccddeeff"

abbrev registration : ClientMessage
registration = register_codes (record { hash = digits; ttl_ms = 135000 } ∷ [])

abbrev sent : Str
sent = codes "{...}"

abbrev parsed : Str → Option Json
parsed raw = some (object (encode registration))

digits_hash : is_hash digits ≡ true
unfolding repeats
digits_hash = refl

sent_short : utf8_length sent ≤ max_message
unfolding utf8_length
sent_short = omega arith

registration-IsAllowed : IsAllowed registration
registration-IsAllowed = (omega arith, ((digits_hash, omega arith, omega arith), tt))

-- The members in another order, with one more.
abbrev sorted : Members
sorted =
    member (codes "codes")
      (array (
        item
          (object (
            member (codes "ttlMs") (number (whole 135000))
              (member (codes "hash") (string digits) no_members)))
          no_items))
      (member (codes "extra") (boolean true)
        (member (codes "type") (string (codes "codes")) no_members))

parse_client_complete_example : parse_client (λ raw. some (object sorted)) sent ≡ ok registration
unfolding get str_eq items
parse_client_complete_example =
    parse_client_complete (λ raw. some (object sorted)) sent registration sorted sent_short refl
      registration-IsAllowed (refl, (_, refl, ((_, refl, refl, refl), tt)))

registration-parsed : parse_client parsed sent ≡ ok registration
unfolding parse_client parse_members parse_codes parse_registrations parse_registration valid_ttl
    matching utf8_length encode encode_registrations get text_of is_text members_of items_of items
    str_eq repeats
registration-parsed = refl

parse_client-IsAllowed_example : (utf8_length sent ≤ max_message) × IsAllowed registration
parse_client-IsAllowed_example = parse_client-IsAllowed parsed sent registration-parsed

-- ===== src/Protocol/Json.antt =====
-- What `JSON.parse` returns, as shared/protocol.ts takes it apart: object members by name, with
-- `undefined` for a member that is not there, and the tests of `typeof`.
use laptop_as_a_second_monit.Common.{
  ℕ, Bool, false, Option, none, some, List, [], ◌∷◌, Str, str_eq, ◌==◌, if◌then◌else◌, ◌&&◌, length,
  ltb, leb,
}

-- A JavaScript number: an integer of either sign (`negative n` is -(n + 1)), or one that is no
-- integer, among them the infinity that an overflowing literal parses to.
pub data Number : Type 0 where
  whole : ℕ → Number
  negative : ℕ → Number
  fractional : Number

mutual
  pub data Json : Type 0 where
    null : Json
    boolean : Bool → Json
    number : Number → Json
    string : Str → Json
    array : Items → Json
    object : Members → Json

  pub data Items : Type 0 where
    no_items : Items
    item : Json → Items → Items

  pub data Members : Type 0 where
    no_members : Members
    member : Str → Json → Members → Members

-- `m.key`; `none` is `undefined`.
unfoldable pub get : Str → Members → Option Json
get key no_members = none
get key (member k v rest) = if str_eq key k then some v else get key rest

unfoldable pub items : Items → List Json
items no_items = []
items (item v rest) = v ∷ items rest

-- `x === "text"`
unfoldable pub is_text : Option Json → Str → Bool
is_text (some (string s)) t = str_eq s t
is_text _ t = false

-- `typeof x === "string"`, with the string.
unfoldable pub text_of : Option Json → Option Str
text_of (some (string s)) = some s
text_of _ = none

-- `x === n` for a natural number
unfoldable pub is_number : Option Json → ℕ → Bool
is_number (some (number (whole k))) n = k == n
is_number _ n = false

-- `typeof x === "boolean"`, with the value.
unfoldable pub boolean_of : Option Json → Option Bool
boolean_of (some (boolean b)) = some b
boolean_of _ = none

-- `object(x)`: neither null nor an array.
unfoldable pub members_of : Json → Option Members
members_of (object ms) = some ms
members_of _ = none

-- `Array.isArray(x)`, with the elements.
unfoldable pub items_of : Option Json → Option (List Json)
unfolding items
items_of (some (array xs)) = some (items xs)
items_of _ = none

-- `str(x, max)`: a string that is not empty and not longer than `max`.
unfoldable pub bounded_text : Option Json → ℕ → Option Str
unfolding text_of
bounded_text x most = elim (text_of x) [
  | none ↦ none
  | some s ↦ if ltb 0 (length s) && leb (length s) most then some s else none
]

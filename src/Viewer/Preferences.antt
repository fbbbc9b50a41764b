-- ===== src/Viewer/Preferences.antt =====
-- viewer/src/preferences.ts: reading the remembered signaling server. `decodeURIComponent` and the `URL`
-- parser are arguments, and so is what the page's cookies and its storage hold.
pub mod Remembered
pub mod Stored
use laptop_as_a_second_monit.Common.{
  ℕ, Bool, true, false, ◌&&◌, ◌||◌, not, Option, none, some, List, [], ◌∷◌, ◌++◌, Str, codes,
  str_eq, in_range, length, ltb, ◌==◌, if◌then◌else◌,
}

abbrev pub key : Str
key = codes "lm_signaling_url"

-- What the source reads of a parsed address; `bare` is the address without query and fragment.
pub record Url : Type 0 where
  pub protocol : Str
  pub hostname : Str
  pub bare : Str

-- `text.split(sep)` for one character.
unfoldable pub split_on : ℕ → Str → List Str
split_on sep [] = [] ∷ []
split_on sep (c ∷ s) = elim (split_on sep s) [
  | [] ↦ (c ∷ []) ∷ []
  | t ∷ ts ↦ if c == sep then [] ∷ t ∷ ts else (c ∷ t) ∷ ts
]

-- The parts before and behind the first of a character.
unfoldable pub cut : ℕ → Str → Option (Str × Str)
cut sep [] = none
cut sep (c ∷ s) =
    let rest = cut sep s in
    if c == sep then some ([], s) else elim rest [ none ↦ none | some (t, u) ↦ some (c ∷ t, u) ]

-- What `trim` takes away: white space and line terminators.
abbrev pub is_blank : ℕ → Bool
is_blank c =
    in_range 9 13 c
    || c == 32
    || c == 0xa0
    || c == 0x1680
    || in_range 0x2000 0x200a c
    || c == 0x2028
    || c == 0x2029
    || c == 0x202f
    || c == 0x205f
    || c == 0x3000
    || c == 0xfeff

unfoldable pub trim_start : Str → Str
trim_start [] = []
trim_start (c ∷ s) = if is_blank c then trim_start s else c ∷ s

unfoldable pub trim_end : Str → Str
trim_end [] = []
trim_end (c ∷ s) = elim (trim_end s) [ [] ↦ if is_blank c then [] else c ∷ [] | d ∷ t ↦ c ∷ d ∷ t ]

unfoldable pub trim : Str → Str
trim s = trim_end (trim_start s)

abbrev pub is_filled : Str → Bool
is_filled [] = false
is_filled (_ ∷ _) = true

-- `out[name] = value`
unfoldable pub set : Str → Str → List (Str × Str) → List (Str × Str)
set k v [] = (k, v) ∷ []
set k v ((j, w) ∷ out) = if str_eq j k then (k, v) ∷ out else (j, w) ∷ set k v out

unfoldable pub value_of : Str → List (Str × Str) → Option Str
value_of k [] = none
value_of k ((j, w) ∷ out) = if str_eq j k then some w else value_of k out

abbrev pub set_if : Str → Option Str → List (Str × Str) → List (Str × Str)
set_if name none out = out
set_if name (some v) out = if is_filled name then set name v out else out

-- The body of the loop: a part without a name, or whose value does not decode, is left out.
unfoldable pub add_part : (Str → Option Str) → Str → List (Str × Str) → List (Str × Str)
add_part decode part out = elim (cut b'=' part) [
  | none ↦ out
  | some (name, value) ↦
      if is_filled name then set_if (trim name) (decode (trim value)) out else out
]

unfoldable pub add_parts : (Str → Option Str) → List Str → List (Str × Str) → List (Str × Str)
add_parts decode [] out = out
add_parts decode (p ∷ ps) out = add_parts decode ps (add_part decode p out)

unfoldable pub parse_cookies : (Str → Option Str) → Str → List (Str × Str)
parse_cookies decode header = add_parts decode (split_on b';' header) []

abbrev pub is_local : Str → Bool
is_local host = str_eq host (codes "localhost") || str_eq host (codes "127.0.0.1")

-- HTTPS everywhere, HTTP only on localhost.
abbrev pub is_safe : Url → Bool
is_safe u =
    str_eq u.protocol (codes "https:") || str_eq u.protocol (codes "http:") && is_local u.hostname

abbrev pub bare_if_safe : Option Url → Option Str
bare_if_safe none = none
bare_if_safe (some u) = if is_safe u then some u.bare else none

unfoldable pub usable_signaling_url : (Str → Option Url) → Option Str → Option Str
usable_signaling_url parse_url none = none
usable_signaling_url parse_url (some v) =
    if not (is_filled v) || ltb 512 (length v) then none else bare_if_safe (parse_url v)

-- `none` is a cookie store, or a storage, that throws.
abbrev pub cookie_server : (Str → Option Str) → Option Str → Option Str
cookie_server decode none = none
cookie_server decode (some header) = value_of key (parse_cookies decode header)

abbrev pub or_stored : Option (Option Str) → Option Str → Option Str
or_stored storage (some (c ∷ s)) = some (c ∷ s)
or_stored none v = v
or_stored (some item) v = item

unfoldable pub saved_server :
    (Str → Option Url)
    → (Str → Option Str)
    → (cookie : Option Str) → (storage : Option (Option Str)) → Option Str
saved_server parse_url decode cookie storage =
    usable_signaling_url parse_url (or_stored storage (cookie_server decode cookie))

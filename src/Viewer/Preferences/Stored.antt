-- ===== src/Viewer/Preferences/Stored.antt =====
-- viewer/src/preferences.ts: what the page writes to its cookies and its storage.
use laptop_as_a_second_monit.Common.{
  ℕ, Bool, true, false, Option, none, some, List, [], ◌∷◌, ◌++◌, Str, codes, str_eq, str_eq_refl,
  ◌==◌, ◌≡◌, if◌then◌else◌, refl, not, Bool-cases, inl, inr,
}
use laptop_as_a_second_monit.Viewer.Preferences.{Url, key, set, value_of, usable_signaling_url}

-- What the page has given to `document.cookie`, newest first, and the items of `localStorage`; `none` is
-- a store that throws.
pub record Stores : Type 0 where
  pub cookies : Option (List Str)
  pub items : Option (List (Str × Str))

abbrev pub write_cookie : Str → Option (List Str) → Option (List Str)
write_cookie text none = none
write_cookie text (some written) = some (text ∷ written)

abbrev pub set_item : Str → Str → Option (List (Str × Str)) → Option (List (Str × Str))
set_item name v none = none
set_item name v (some items) = some (set name v items)

unfoldable pub remove : Str → List (Str × Str) → List (Str × Str)
remove k [] = []
remove k ((j, v) ∷ items) = if str_eq j k then remove k items else (j, v) ∷ remove k items

abbrev pub remove_item : Str → Option (List (Str × Str)) → Option (List (Str × Str))
remove_item name none = none
remove_item name (some items) = some (remove name items)

-- `path.slice(0, path.lastIndexOf(sep) + 1)` for one character.
unfoldable pub up_to_last : ℕ → Str → Str
up_to_last sep [] = []
up_to_last sep (c ∷ s) = elim (up_to_last sep s) [
  | [] ↦ if c == sep then c ∷ [] else []
  | d ∷ t ↦ c ∷ d ∷ t
]

abbrev pub or_root : Str → Str
or_root [] = codes "/"
or_root (c ∷ s) = c ∷ s

unfoldable pub cookie_path : (pathname : Str) → Str
cookie_path pathname = or_root (up_to_last b'/' pathname)

abbrev pub secure : (is_https : Bool) → Str
secure is_https = if is_https then codes "; Secure" else []

-- The text of a cookie that is kept for a year.
abbrev pub lasting_cookie : (pathname : Str) → (is_https : Bool) → Str → Str
lasting_cookie pathname is_https value =
    key
    ++ codes "="
    ++ value
    ++ codes "; Max-Age=31536000; Path="
    ++ cookie_path pathname
    ++ codes "; SameSite=Lax"
    ++ secure is_https

unfoldable pub remember_server :
    (Str → Option Url)
    → (encode : Str → Str) → (pathname : Str) → (is_https : Bool) → (value : Str) → Stores
    → Stores
remember_server parse_url encode pathname is_https value s =
    elim (usable_signaling_url parse_url (some value)) [
      | none ↦ s
      | some url ↦ record {
        cookies = write_cookie (lasting_cookie pathname is_https (encode url)) s.cookies;
        items = set_item key url s.items;
      }
    ]

unfoldable pub forget_server : (pathname : Str) → Stores → Stores
forget_server pathname s = record {
  cookies =
      write_cookie
        (key ++ codes "=; Max-Age=0; Path=" ++ cookie_path pathname ++ codes "; SameSite=Lax")
        s.cookies;
  items = remove_item key s.items;
}

abbrev pub fullscreen_key : Str
fullscreen_key = codes "lm_auto_fullscreen"

unfoldable pub parse_auto_fullscreen : Option Str → Bool
parse_auto_fullscreen none = true
parse_auto_fullscreen (some stored) = not (str_eq stored (codes "off"))

-- `localStorage.getItem`, `none` where the storage throws.
abbrev pub get_item : Str → Option (List (Str × Str)) → Option (Option Str)
get_item name none = none
get_item name (some items) = some (value_of name items)

abbrev pub flag_of : Option (Option Str) → Bool
flag_of none = true
flag_of (some stored) = parse_auto_fullscreen stored

unfoldable pub auto_fullscreen : Stores → Bool
auto_fullscreen s = flag_of (get_item fullscreen_key s.items)

abbrev pub switch_text : Bool → Str
switch_text on = if on then codes "on" else codes "off"

unfoldable pub remember_auto_fullscreen : Bool → Stores → Stores
remember_auto_fullscreen on s = record {
  cookies = s.cookies;
  items = set_item fullscreen_key (switch_text on) s.items;
}

-- A value that is set is the one found under its name.
pub value_of-set : (k v : Str) (items : List (Str × Str)) → value_of k (set k v items) ≡ some v
unfolding value_of set
value_of-set k v [] = simp (str_eq_refl) refl
value_of-set k v ((j, w) ∷ items) = elim (Bool-cases (str_eq j k)) [
  | inl e ↦ simp (e, str_eq_refl) refl
  | inr e ↦ simp (e) (value_of-set k v items)
]

-- Where the storage can be written, the fullscreen switch is read back as it was set.
pub auto_fullscreen-remember :
    (on : Bool) (cookies : Option (List Str)) (items : List (Str × Str))
    → auto_fullscreen
        (remember_auto_fullscreen on (record { cookies = cookies; items = some items }))
      ≡ on
unfolding auto_fullscreen remember_auto_fullscreen parse_auto_fullscreen str_eq
auto_fullscreen-remember true cookies items =
    rw (value_of-set fullscreen_key (switch_text true) items) refl
auto_fullscreen-remember false cookies items =
    rw (value_of-set fullscreen_key (switch_text false) items) refl

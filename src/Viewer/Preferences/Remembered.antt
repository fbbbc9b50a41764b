-- ===== src/Viewer/Preferences/Remembered.antt =====
-- viewer/src/preferences.ts: what `usableSignalingUrl` and `savedServer` let through.
use laptop_as_a_second_monit.Common.{
  true, not, ◌||◌, Option, none, some, Str, length, ltb, ◌≡◌, Bool-cases, Option-cases, inl, inr,
  ap, refl, arith, codes, str_eq_iff, ◌⊎◌,
}
use laptop_as_a_second_monit.Viewer.Preferences.{
  Url, is_safe, is_filled, bare_if_safe, or_stored, cookie_server, usable_signaling_url,
  saved_server, is_local,
}

-- HTTPS, or HTTP on this machine.
abbrev pub IsSecure : Url → Type 0
IsSecure u =
    (u.protocol ≡ codes "https:")
    ⊎ ((u.protocol ≡ codes "http:")
        × ((u.hostname ≡ codes "localhost") ⊎ (u.hostname ≡ codes "127.0.0.1")))

is_local_sound : (h : Str) → is_local h ≡ true → (h ≡ codes "localhost") ⊎ (h ≡ codes "127.0.0.1")
is_local_sound h e =
    ground (arith, str_eq_iff h (codes "localhost"), str_eq_iff h (codes "127.0.0.1"))

is_safe-IsSecure : (u : Url) → is_safe u ≡ true → IsSecure u
is_safe-IsSecure u e = ground (
  arith,
  str_eq_iff u.protocol (codes "https:"),
  str_eq_iff u.protocol (codes "http:"),
  is_local_sound u.hostname,
)

-- The address comes from a parsed one that is HTTPS, or HTTP on this machine, less its query and fragment.
unfoldable pub IsBareOf : Str → Option Url → Type 0
IsBareOf out parsed = (u : Url) × (parsed ≡ some u) × IsSecure u × (u.bare ≡ out)

-- An address that passes the rule is the bare form of a safe one.
pub bare_if_safe-IsBareOf :
    (parsed : Option Url) (out : Str) → bare_if_safe parsed ≡ some out → IsBareOf out parsed
unfolding IsBareOf
bare_if_safe-IsBareOf none out e = absurd cc
bare_if_safe-IsBareOf (some u) out e = elim (Bool-cases (is_safe u)) [
  | inl s ↦ (u, refl, is_safe-IsSecure u s, ground arith)
  | inr s ↦ absurd (ground arith)
]

-- What `usableSignalingUrl` lets through is the bare form of a safe address that the value parses to.
pub usable_signaling_url-IsBareOf :
    (parse_url : Str → Option Url) (v out : Str)
    → usable_signaling_url parse_url (some v) ≡ some out
    → IsBareOf out (parse_url v)
unfolding usable_signaling_url
usable_signaling_url-IsBareOf parse_url v out e =
    elim (Bool-cases (not (is_filled v) || ltb 512 (length v))) [
      | inl s ↦ absurd (ground arith)
      | inr s ↦ bare_if_safe-IsBareOf (parse_url v) out (ground arith)
    ]

-- Whatever the cookies and the storage hold, a saved server is the address, less its query and fragment,
-- that the cookie or, where that has none, the storage names, and it is HTTPS, or HTTP with the host
-- `localhost` or `127.0.0.1`.
pub saved_server-IsBareOf :
    (parse_url : Str → Option Url) (decode : Str → Option Str) (cookie : Option Str)
    (storage : Option (Option Str)) (out : Str)
    → saved_server parse_url decode cookie storage ≡ some out
    → (v : Str) × (or_stored storage (cookie_server decode cookie) ≡ some v)
      × IsBareOf out (parse_url v)
unfolding saved_server usable_signaling_url
saved_server-IsBareOf parse_url decode cookie storage out e =
    let usable = usable_signaling_url parse_url in
    elim (Option-cases (or_stored storage (cookie_server decode cookie))) [
      | inl n ↦ absurd (cc (e, ap usable n))
      | inr (v, n) ↦ (v, n, usable_signaling_url-IsBareOf parse_url v out (cc (e, ap usable n)))
    ]

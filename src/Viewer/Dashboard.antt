-- ===== src/Viewer/Dashboard.antt =====
-- viewer/src/dashboard.ts: what the panel keeps of the messages that it is given. The doubles of a message
-- and their printing are arguments, and so are the table behind `toUpperCase` and the clock.
pub mod Panel
pub mod History
use laptop_as_a_second_monit.Common.{
  ℕ, Bool, true, false, ◌&&◌, ◌||◌, not, Option, none, some, List, [], ◌∷◌, Str, codes, str_eq,
  if◌then◌else◌,
}

-- A member of a message; `other` is a Boolean, an array or an object, with its truth and its printing.
pub data Value (D : Type 0) : Type 0 where
  null : Value D
  number : D → Value D
  text : Str → Value D
  other : (is_truthy : Bool) → (printed : Str) → Value D

-- The members by name; one that is not there is `undefined`.
abbrev pub Metrics : Type 0 → Type 0
Metrics D = List (Str × Value D)

pub record Dashboard (D : Type 0) : Type 0 where
  pub connection : Metrics D
  pub receiver : Metrics D
  pub host : Metrics D
  pub host_at : ℕ

module _ {D : Type 0} where
  -- `m.key`
  unfoldable pub member : Str → Metrics D → Option (Value D)
  member k [] = none
  member k ((j, v) ∷ m) = if str_eq j k then some v else member k m

  -- `x === "text"`
  abbrev pub is_text : Option (Value D) → Str → Bool
  is_text (some (text s)) t = str_eq s t
  is_text _ t = false

  -- The fields at the beginning, and after `reset`.
  abbrev pub reset : Dashboard D
  reset = record { connection = []; receiver = []; host = []; host_at = 0 }

module _ {D : Type 0} (is_zero : D → Bool) where
  -- `if (x)`; `is_zero` says which doubles are 0 or no number.
  abbrev pub is_truthy : Option (Value D) → Bool
  is_truthy none = false
  is_truthy (some null) = false
  is_truthy (some (number x)) = not (is_zero x)
  is_truthy (some (text [])) = false
  is_truthy (some (text (_ ∷ _))) = true
  is_truthy (some (other b printed)) = b

  unfoldable pub on_connection : Metrics D → Dashboard D → Dashboard D
  on_connection m d =
      if is_truthy (member (codes "resetPeer") m)
      then record d { connection = m; receiver = []; host = [] }
      else record d { connection = m }

  -- What `update` does with an object.
  unfoldable pub take : (now : ℕ) → Metrics D → Dashboard D → Dashboard D
  take now m d =
      let kind = member (codes "type") m in
      if is_text kind (codes "connection-stats")
      then on_connection m d
      else if is_text kind (codes "receiver-stats")
      then record d { receiver = m }
      else if is_text kind (codes "host-stats")
      then record d { host = m; host_at = now }
      else d

  -- `none` is a value that is no object.
  unfoldable pub update : (now : ℕ) → Option (Metrics D) → Dashboard D → Dashboard D
  update now none d = d
  update now (some m) d = take now m d

  unfoldable pub run : List (ℕ × Option (Metrics D)) → Dashboard D → Dashboard D
  run [] d = d
  run ((now, v) ∷ es) d = run es (update now v d)

-- ===== src/Common/Sequence.antt =====
-- Handlers as values: a step returns the new state and what it does, in order.
use mathlib.Core.List.{List, [], ◌∷◌, ◌++◌}

abbrev pub Steps : Type 0 → Type 0 → Type 0
Steps S E = S × List E

-- One step after another.
infixl 5 ◌>>>◌
unfoldable pub ◌>>>◌ : {S T E : Type 0} → Steps S E → (S → Steps T E) → Steps T E
(s, es) >>> f = let (t, more) = f s in (t, es ++ more)

abbrev pub emit : {S E : Type 0} → E → S → Steps S E
emit e s = (s, e ∷ [])

-- Nothing happens.
abbrev pub stay : {S E : Type 0} → S → Steps S E
stay s = (s, [])

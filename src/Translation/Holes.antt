-- ===== src/Translation/Holes.antt =====
-- web/src/i18n.tsx: the placeholders of a template.
use accp.Prelude.{ℕ, Bool, true, not, ◌&&◌, List, [], ◌∷◌, ◌++◌, Option, ◌==◌}
use accp.Text.{Text, is_empty}
use accp.Translation.{is_word, Value, shown, parameter, placeholder}

-- A template in parts: text without "{", and placeholders by their names.
pub data Part : Type 0 where
  literal : Text → Part
  hole : Text → Part

abbrev pub each : (ℕ → Bool) → Text → Bool
each p [] = true
each p (c ∷ s) = p c && each p s

abbrev pub is_part : Part → Bool
is_part (literal s) = each (λ c. not (c == 123)) s
is_part (hole w) = not (is_empty w) && each is_word w

abbrev pub are_parts : List Part → Bool
are_parts [] = true
are_parts (p ∷ ps) = is_part p && are_parts ps

abbrev pub printed_part : Part → Text
printed_part (literal s) = s
printed_part (hole w) = placeholder w

abbrev pub printed : List Part → Text
printed [] = []
printed (p ∷ ps) = printed_part p ++ printed ps

-- A placeholder of which neither a parameter nor a name of every object is known stays.
abbrev pub filled_part :
    (format : Text → Text) → (inherited : Text → Option Text) → List (Text × Value) → Part → Text
filled_part format inherited vs (literal s) = s
filled_part format inherited vs (hole w) = shown format (parameter inherited vs w) (placeholder w)

abbrev pub filled :
    (format : Text → Text)
    → (inherited : Text → Option Text) → List (Text × Value)
    → List Part
    → Text
filled format inherited vs [] = []
filled format inherited vs (p ∷ ps) =
    filled_part format inherited vs p ++ filled format inherited vs ps

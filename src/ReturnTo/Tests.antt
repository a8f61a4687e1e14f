-- ===== src/ReturnTo/Tests.antt =====
-- web/src/returnTo.ts at concrete values.
use accp.Prelude.{◌≡◌, refl, subst, ap, [], ◌∷◌, none, some, Option}
use accp.Text.{Text, codes, text_eq, starts_with}
use accp.ReturnTo.{Url, sanitize_return_to}
use accp.ReturnTo.Safe.{IsWellFormed}

abbrev here : Text
here = codes "https://accp.example"

-- A parser for these tests: the path is the rest of the text behind its "/".
abbrev parse_path : Text → Option Url
parse_path [] = none
parse_path (c ∷ s) = some (record { origin = here; pathname = 47 ∷ s; search = []; hash = [] })

parse_path-IsWellFormed : (s : Text) (url : Url) → parse_path s ≡ some url → IsWellFormed url
unfolding starts_with
parse_path-IsWellFormed [] url e = cc e
parse_path-IsWellFormed (c ∷ s) url e =
    subst IsWellFormed (ap (λ o. elim o [ none ↦ url | some u ↦ u ]) e)
      (record { path = refl; query = refl; fragment = refl })

sanitize_run :
    sanitize_return_to parse_path here (some (codes "/projects/p1")) ≡ codes "/projects/p1"
unfolding sanitize_return_to text_eq starts_with
sanitize_run = refl

-- ===== src/Text/Trim.antt =====
-- Laws of `trim`.
use accp.Prelude.{◌≡◌, refl, ap, ◌∙◌, inl, inr, false, [], ◌∷◌, arith, Bool-cases, if◌then◌else◌}
use accp.Text.{Text, is_space, trim_start, trim_end, trim}

abbrev StartsSolid : Text → Type 0
StartsSolid [] = Unit
StartsSolid (c ∷ s) = is_space c ≡ false

trim_start-StartsSolid : (s : Text) → StartsSolid (trim_start s)
unfolding trim_start
trim_start-StartsSolid [] = tt
trim_start-StartsSolid (c ∷ s) = elim (Bool-cases (is_space c)) [
  | inl e ↦ rw e (trim_start-StartsSolid s)
  | inr e ↦ rw e e
]

trim_start_of_StartsSolid : (s : Text) → StartsSolid s → trim_start s ≡ s
unfolding trim_start
trim_start_of_StartsSolid [] h = refl
trim_start_of_StartsSolid (c ∷ s) h = rw h

trim_end-StartsSolid : (s : Text) → StartsSolid s → StartsSolid (trim_end s)
unfolding trim_end
trim_end-StartsSolid [] h = tt
trim_end-StartsSolid (c ∷ s) h = by_rest (trim_end s) h
  where
    by_rest :
        (t : Text)
        → is_space c ≡ false
        → StartsSolid (elim t [ [] ↦ if is_space c then [] else c ∷ [] | d ∷ u ↦ c ∷ d ∷ u ])
    by_rest [] e = rw e e
    by_rest (d ∷ u) e = e

trim_end-trim_end : (s : Text) → trim_end (trim_end s) ≡ trim_end s
unfolding trim_end
trim_end-trim_end [] = refl
trim_end-trim_end (c ∷ s) = ground (arith, trim_end-trim_end s)

-- Trimming twice is trimming once.
pub trim-trim : (s : Text) → trim (trim s) ≡ trim s
unfolding trim
trim-trim s =
    ap trim_end (trim_start_of_StartsSolid _ (trim_end-StartsSolid _ (trim_start-StartsSolid s)))
    ∙ trim_end-trim_end (trim_start s)

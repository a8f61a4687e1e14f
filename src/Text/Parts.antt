-- ===== src/Text/Parts.antt =====
-- Laws of `split` and `join` at one code unit.
use accp.Prelude.{ℕ, ◌≡◌, refl, ap, ◌∙◌, ◌≢◌, List, [], ◌∷◌, ◌++◌, arith, ==_iff, All}
use accp.Text.{Text, cons_part, split, join, Without}

module _ (sep : ℕ) where
  pub split_self : (s : Text) → split sep (sep ∷ s) ≡ [] ∷ split sep s
  unfolding split
  split_self s = rw ((==_iff sep sep).1 refl)

  split-ne : (c : ℕ) (s : Text) → c ≢ sep → split sep (c ∷ s) ≡ cons_part c (split sep s)
  unfolding split
  split-ne c s h = ground arith

  -- A text without the separator is one part.
  pub split_of_Without : (p : Text) → Without sep p → split sep p ≡ p ∷ []
  unfolding split cons_part
  split_of_Without [] h = refl
  split_of_Without (c ∷ p) (ne, h) = split-ne c p ne ∙ rw (split_of_Without p h)

  -- The first separator ends the first part.
  pub split-append : (p s : Text) → Without sep p → split sep (p ++ sep ∷ s) ≡ p ∷ split sep s
  unfolding cons_part
  split-append [] s h = split_self s
  split-append (c ∷ p) s (ne, h) = split-ne c (p ++ sep ∷ s) ne ∙ rw (split-append p s h)

  pub split-join :
      (p : Text) (ps : List Text)
      → Without sep p
      → All (Without sep) ps
      → split sep (join sep (p ∷ ps)) ≡ p ∷ ps
  unfolding join
  split-join p [] h hs = split_of_Without p h
  split-join p (q ∷ ps) h (k, hs) =
      split-append p (join sep (q ∷ ps)) h ∙ ap (p ∷◌) (split-join q ps k hs)

-- ===== src/Stream/Frames/Boundary.antt =====
-- A carriage return and its line feed that arrive in two chunks: `splitFrames` reads them as a
-- blank line.
use accp.Prelude.{
  ℕ, suc, ◌+◌, ◌≡◌, refl, ap, ap₂, subst, ◌∙◌, [], ◌∷◌, ◌++◌, none, some, arith, append_assoc,
  length, take, drop,
}
use accp.Text.{Text, starts_with, index_of, Without}
use accp.Stream.Frames.{lf, cr, blank, normalize, split_frames}
use accp.Stream.Frames.Splitting.{Splits, whole, cut, split_frames_of_Splits}
use accp.Stream.Frames.Chunks.{normalize-append, normalize_of_Without, splits_crlf_of_Without}

-- A text with no line feed has no blank line, and one line feed more makes none.
module _ (t : Text) (no_lf : Without lf t) where
  index_of-blank : (s : Text) → Without lf s → index_of blank s ≡ none
  unfolding index_of starts_with
  index_of-blank [] h = refl
  index_of-blank (c ∷ s) (ne, h) = ground (arith, index_of-blank s h)

  index_of-blank_one_lf : (s : Text) → Without lf s → index_of blank (s ++ lf ∷ t) ≡ none
  unfolding index_of starts_with
  index_of-blank_one_lf [] h = one_lf t no_lf
    where
      one_lf : (u : Text) → Without lf u → index_of blank (lf ∷ u) ≡ none
      one_lf [] h = refl
      one_lf (c ∷ u) (ne, h) = ground (arith, index_of-blank u h)
  index_of-blank_one_lf (c ∷ s) (ne, h) = ground (arith, index_of-blank_one_lf s h)

  index_of-blank_two_lf :
      (s : Text) → Without lf s → index_of blank (s ++ lf ∷ lf ∷ t) ≡ some (length s)
  unfolding index_of starts_with
  index_of-blank_two_lf [] h = refl
  index_of-blank_two_lf (c ∷ s) (ne, h) = ground (arith, index_of-blank_two_lf s h)

take-length : (s t : Text) → take (length s) (s ++ t) ≡ s
take-length [] [] = refl
take-length [] (c ∷ t) = refl
take-length (c ∷ s) t = ap (c ∷◌) (take-length s t)

drop-length-append : (s t : Text) (k : ℕ) → drop (length s + k) (s ++ t) ≡ drop k t
drop-length-append [] t k = ap (λ n. drop n t) (omega arith)
drop-length-append (c ∷ s) t k =
    ap (λ n. drop n (c ∷ s ++ t)) {x = suc (length s) + k} {y = suc (length s + k)} (omega arith)
    ∙ drop-length-append s t k

module _ (s t : Text) (no_cr : Without cr s) (no_cr' : Without cr t) (no_lf : Without lf s)
    (no_lf' : Without lf t) where
  -- in one piece
  split_frames-whole : split_frames (s ++ cr ∷ lf ∷ t) ≡ ([], s ++ lf ∷ t)
  unfolding normalize starts_with
  split_frames-whole =
      split_frames_of_Splits (s ++ cr ∷ lf ∷ t)
        (rw normal (whole (index_of-blank_one_lf t no_lf' s no_lf)))
    where
      end_eq : normalize (cr ∷ lf ∷ t) ≡ lf ∷ t
      end_eq = ap (lf ∷◌) (normalize_of_Without t no_cr')

      normal : normalize (s ++ cr ∷ lf ∷ t) ≡ s ++ lf ∷ t
      normal =
          normalize-append s (cr ∷ lf ∷ t) (splits_crlf_of_Without s _ no_cr)
          ∙ ap₂ ◌++◌ (normalize_of_Without s no_cr) end_eq

  -- the first of two chunks
  split_frames-first : split_frames (s ++ cr ∷ []) ≡ ([], s ++ lf ∷ [])
  unfolding normalize starts_with
  split_frames-first =
      split_frames_of_Splits (s ++ cr ∷ [])
        (rw normal (whole (index_of-blank_one_lf [] tt s no_lf)))
    where
      normal : normalize (s ++ cr ∷ []) ≡ s ++ lf ∷ []
      normal =
          normalize-append s (cr ∷ []) (splits_crlf_of_Without s _ no_cr)
          ∙ ap (λ u. u ++ lf ∷ []) (normalize_of_Without s no_cr)

  -- what it left, with the second chunk
  split_frames-second : split_frames ((s ++ lf ∷ []) ++ lf ∷ t) ≡ (s ∷ [], t)
  unfolding normalize starts_with
  split_frames-second = rw (append_assoc s (lf ∷ []) (lf ∷ t)) (
      split_frames_of_Splits (s ++ lf ∷ lf ∷ t) (
        rw normal (
          subst (λ f. Splits (s ++ lf ∷ lf ∷ t) (f ∷ []) t) (take-length s (lf ∷ lf ∷ t))
            (cut (length s) (index_of-blank_two_lf t no_lf' s no_lf) (
              rw (drop-length-append s (lf ∷ lf ∷ t) 2)
                (whole (index_of-blank t no_lf' t no_lf')))))))
    where
      normal : normalize (s ++ lf ∷ lf ∷ t) ≡ s ++ lf ∷ lf ∷ t
      normal =
          normalize-append s (lf ∷ lf ∷ t) (splits_crlf_of_Without s _ no_cr)
          ∙ ap₂ ◌++◌ (normalize_of_Without s no_cr)
              (ap (λ u. lf ∷ lf ∷ u) (normalize_of_Without t no_cr'))

  -- A line `s` and a line `t`, with `\r\n` between them, are no complete frame when they arrive at
  -- once. When the boundary of two chunks stands between `\r` and `\n`, the line `s` is taken for a
  -- frame, and `t` for the start of the next.
  pub split_frames-crlf_boundary :
      ((split_frames (s ++ cr ∷ lf ∷ t)).0 ≡ [])
      × (split_frames ((split_frames (s ++ cr ∷ [])).1 ++ lf ∷ t) ≡ (s ∷ [], t))
  split_frames-crlf_boundary =
      (rw split_frames-whole refl, rw split_frames-first split_frames-second)

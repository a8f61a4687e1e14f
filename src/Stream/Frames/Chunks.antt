-- ===== src/Stream/Frames/Chunks.antt =====
-- What chunk boundaries do to `splitFrames`: the reader's loop puts the rest of one chunk in front
-- of the next.
use accp.Prelude.{
  ℕ, zero, suc, ◌+◌, ◌≡◌, refl, ap, ◌∙◌, Bool, false, List, [], ◌∷◌, ◌++◌, ◌==◌, ◌&&◌, drop, arith,
  if◌then◌else◌,
}
use accp.Text.{Text, starts_with, Without}
use accp.Stream.Frames.{lf, cr, replace_crlf, replace_cr, normalize, split_frames}
use accp.Stream.Frames.Splitting.{
  Splits, whole, cut, split_frames-Splits, split_frames_of_Splits, Splits-append,
}

-- The carriage return of `\r\n` and its line feed stand on the two sides of a boundary.
unfoldable pub splits_crlf : Text → Text → Bool
splits_crlf [] b = false
splits_crlf (c ∷ a) b = elim a [ [] ↦ c == cr && starts_with (lf ∷ []) b | _ ∷ _ ↦ splits_crlf a b ]

replace_crlf-append :
    (a b : Text)
    → splits_crlf a b ≡ false
    → replace_crlf (a ++ b) ≡ replace_crlf a ++ replace_crlf b
unfolding replace_crlf splits_crlf starts_with
replace_crlf-append [] b h = refl
replace_crlf-append (c ∷ []) b h = ground arith
replace_crlf-append (c ∷ d ∷ a) b h = ground (arith, replace_crlf-append (d ∷ a) b h)

replace_cr-append : (a b : Text) → replace_cr (a ++ b) ≡ replace_cr a ++ replace_cr b
unfolding replace_cr
replace_cr-append [] b = refl
replace_cr-append (c ∷ a) b = ap ((if c == cr then lf else c) ∷◌) (replace_cr-append a b)

pub normalize-append :
    (a b : Text) → splits_crlf a b ≡ false → normalize (a ++ b) ≡ normalize a ++ normalize b
unfolding normalize
normalize-append a b h = ap replace_cr (replace_crlf-append a b h) ∙ replace_cr-append _ _

Without-replace_cr : (s : Text) → Without cr (replace_cr s)
unfolding replace_cr
Without-replace_cr [] = tt
Without-replace_cr (c ∷ s) = (ground arith, Without-replace_cr s)

pub Without-normalize : (s : Text) → Without cr (normalize s)
unfolding normalize
Without-normalize s = Without-replace_cr (replace_crlf s)

replace_crlf_of_Without : (s : Text) → Without cr s → replace_crlf s ≡ s
unfolding replace_crlf
replace_crlf_of_Without [] h = refl
replace_crlf_of_Without (c ∷ s) (ne, h) = ground (arith, replace_crlf_of_Without s h)

replace_cr_of_Without : (s : Text) → Without cr s → replace_cr s ≡ s
unfolding replace_cr
replace_cr_of_Without [] h = refl
replace_cr_of_Without (c ∷ s) (ne, h) = ground (arith, replace_cr_of_Without s h)

pub normalize_of_Without : (s : Text) → Without cr s → normalize s ≡ s
unfolding normalize
normalize_of_Without s h = ap replace_cr (replace_crlf_of_Without s h) ∙ replace_cr_of_Without s h

pub splits_crlf_of_Without : (a b : Text) → Without cr a → splits_crlf a b ≡ false
unfolding splits_crlf
splits_crlf_of_Without [] b h = refl
splits_crlf_of_Without (c ∷ []) b (ne, h) = ground arith
splits_crlf_of_Without (c ∷ d ∷ a) b (ne, h) = splits_crlf_of_Without (d ∷ a) b h

Without-drop : (n : ℕ) (s : Text) → Without cr s → Without cr (drop n s)
Without-drop zero s h = h
Without-drop (suc n) [] h = h
Without-drop (suc n) (c ∷ s) h = Without-drop n s h.1

Splits-Without : {s r : Text} {fs : List Text} → Splits s fs r → Without cr s → Without cr r
Splits-Without (whole e) h = h
Splits-Without (cut {s} i e d) h = Splits-Without d (Without-drop (i + 2) s h)

-- A stream read in two chunks has the frames and the rest of the same stream read in one, unless
-- the boundary stands between a carriage return and its line feed.
pub split_frames-append :
    (a b : Text)
    → splits_crlf a b ≡ false
    → split_frames (a ++ b) ≡ (
      (split_frames a).0 ++ (split_frames ((split_frames a).1 ++ b)).0,
      (split_frames ((split_frames a).1 ++ b)).1,
    )
split_frames-append a b h =
    split_frames_of_Splits (a ++ b)
      (rw (normalize-append a b h) (Splits-append (normalize b) first (rw joined at second)))
  where
    rest : Text
    rest = (split_frames a).1

    first : Splits (normalize a) (split_frames a).0 rest
    first = split_frames-Splits a

    clean : Without cr rest
    clean = Splits-Without first (Without-normalize a)

    joined : normalize (rest ++ b) ≡ rest ++ normalize b
    joined =
        normalize-append rest b (splits_crlf_of_Without rest b clean)
        ∙ ap (λ u. u ++ normalize b) (normalize_of_Without rest clean)

    second :
        Splits (normalize (rest ++ b)) (split_frames (rest ++ b)).0 (split_frames (rest ++ b)).1
    second = split_frames-Splits (rest ++ b)

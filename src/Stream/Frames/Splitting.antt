-- ===== src/Stream/Frames/Splitting.antt =====
-- Laws of `splitFrames`: where it cuts, that nothing is lost, and what chunks do.
use mathlib.Core.Option.{some-injective}
use accp.Prelude.{
  ℕ, zero, suc, ◌+◌, ◌≤◌, ◌<◌, ◌≡◌, refl, sym, ap, subst, ◌∙◌, inl, inr, List, [], ◌∷◌, ◌++◌, none,
  some, arith, append_assoc, append-nil, length, take, drop, length-drop, length-append,
  length-take, Option-cases, All,
}
use accp.Text.{Text, index_of}
use accp.Text.Search.{index_of-le, index_of-append, index_of-split}
use accp.Stream.Frames.{lf, blank, normalize, split_loop, split_frames}

-- `Splits s fs r`: cutting `s` at its blank lines, each time at the first, leaves the frames `fs`
-- and the rest `r`.
pub data Splits : Text → List Text → Text → Type 0 where
  whole : {r : Text} → index_of blank r ≡ none → Splits r [] r
  cut :
      {s r : Text} {fs : List Text} (i : ℕ)
      → index_of blank s ≡ some i
      → Splits (drop (i + 2) s) fs r
      → Splits s (take i s ∷ fs) r

split_loop-whole :
    (fuel : ℕ) (acc : List Text) (s : Text)
    → index_of blank s ≡ none
    → split_loop (suc fuel) acc s ≡ (acc, s)
unfolding split_loop
split_loop-whole fuel acc s h = rw (h, split_loop)

split_loop-cut :
    (fuel i : ℕ) (acc : List Text) (s : Text)
    → index_of blank s ≡ some i
    → split_loop (suc fuel) acc s ≡ split_loop fuel (acc ++ take i s ∷ []) (drop (i + 2) s)
unfolding split_loop
split_loop-cut fuel i acc s h = rw (h, split_loop)

-- With fuel above the length the loop finds the frames.
split_loop-Splits :
    (fuel : ℕ) (acc : List Text) {s r : Text} {fs : List Text}
    → Splits s fs r
    → length s < fuel
    → split_loop fuel acc s ≡ (acc ++ fs, r)
split_loop-Splits zero acc d h = absurd (omega arith)
split_loop-Splits (suc fuel) acc (whole {r} e) h = split_loop-whole fuel acc r e ∙ rw append-nil
split_loop-Splits (suc fuel) acc (cut {s} {r} {fs} i e d) h =
    split_loop-cut fuel i acc s e
    ∙ split_loop-Splits fuel (acc ++ take i s ∷ []) d
        (omega (arith, length-drop (i + 2) s, index_of-le blank s i e))
    ∙ rw append_assoc

-- Every text can be cut so.
Splits-exist :
    (fuel : ℕ) (s : Text) → length s < fuel → (fs : List Text) × (r : Text) × Splits s fs r
Splits-exist zero s h = absurd (omega arith)
Splits-exist (suc fuel) s h = elim (Option-cases (index_of blank s)) [
  | inl e ↦ ([], s, whole e)
  | inr (i, e) ↦
      let (fs, r, d) =
        Splits-exist fuel (drop (i + 2) s)
          (omega (arith, length-drop (i + 2) s, index_of-le blank s i e)) in
      (take i s ∷ fs, r, cut i e d)
]

pub split_frames-Splits : (b : Text) → Splits (normalize b) (split_frames b).0 (split_frames b).1
unfolding split_frames
split_frames-Splits b =
    let (fs, r, d) = Splits-exist (suc (length (normalize b))) (normalize b) (omega arith) in
    let e = split_loop-Splits (suc (length (normalize b))) [] d (omega arith) in rw e d

pub split_frames_of_Splits :
    (b : Text) {fs : List Text} {r : Text} → Splits (normalize b) fs r → split_frames b ≡ (fs, r)
unfolding split_frames
split_frames_of_Splits b d = split_loop-Splits (suc (length (normalize b))) [] d (omega arith)

-- Every frame, each with the blank line that ends it.
pub ended : List Text → Text
ended [] = []
ended (f ∷ fs) = f ++ (blank ++ ended fs)

take-append : {A : Type 0} (n : ℕ) (xs ys : List A) → n ≤ length xs → take n (xs ++ ys) ≡ take n xs
take-append zero xs ys h = refl
take-append (suc n) [] ys h = elim h [ ]
take-append (suc n) (x ∷ xs) ys h = ap (x ∷◌) (take-append n xs ys (omega arith))

drop-append :
    {A : Type 0} (n : ℕ) (xs ys : List A) → n ≤ length xs → drop n (xs ++ ys) ≡ drop n xs ++ ys
drop-append zero xs ys h = refl
drop-append (suc n) [] ys h = elim h [ ]
drop-append (suc n) (x ∷ xs) ys h = drop-append n xs ys (omega arith)

-- Cutting what is left of one piece in front of the next is cutting both.
pub Splits-append :
    (t : Text) {s r r' : Text} {fs gs : List Text}
    → Splits s fs r
    → Splits (r ++ t) gs r'
    → Splits (s ++ t) (fs ++ gs) r'
Splits-append t (whole e) d = d
Splits-append t {r'} {gs} (cut {s} {fs} i e c) d =
    let fits = index_of-le blank s i e in
    subst (λ f. Splits (s ++ t) (f ∷ (fs ++ gs)) r') (take-append i s t (omega arith))
      (cut i (index_of-append blank s t i e) (
        subst (λ u. Splits u (fs ++ gs) r') (sym (drop-append (i + 2) s t fits))
          (Splits-append t c d)))

Splits-ended : {s r : Text} {fs : List Text} → Splits s fs r → s ≡ ended fs ++ r
unfolding ended
Splits-ended (whole e) = refl
Splits-ended (cut {s} {r} {fs} i e d) =
    index_of-split blank s i e
    ∙ ap (λ u. take i s ++ (blank ++ u)) (Splits-ended d)
    ∙ sym (append_assoc (take i s) (blank ++ ended fs) r)

-- No blank line begins in a frame.
abbrev pub IsFrame : Text → Type 0
IsFrame f = index_of blank (f ++ lf ∷ []) ≡ none

IsFrame-take : (s : Text) (i : ℕ) → index_of blank s ≡ some i → IsFrame (take i s)
IsFrame-take s i e = elim (Option-cases (index_of blank (take i s ++ lf ∷ []))) [
  | inl clean ↦ clean
  | inr (p, found) ↦
      let grown = index_of-append blank (take i s ++ lf ∷ []) (lf ∷ drop (i + 2) s) p found in
      let same_text =
        append_assoc (take i s) (lf ∷ []) (lf ∷ drop (i + 2) s)
        ∙ sym (index_of-split blank s i e) in
      let same_place =
        some-injective _ _ (sym (subst (λ u. index_of blank u ≡ some p) same_text grown) ∙ e) in
      absurd (
        omega (
          arith,
          same_place,
          index_of-le blank (take i s ++ lf ∷ []) p found,
          length-append {0} (take i s) (lf ∷ []),
          length-take i s,
        ))
]

Splits-All :
    {s r : Text} {fs : List Text} → Splits s fs r → All IsFrame fs × (index_of blank r ≡ none)
Splits-All (whole e) = (tt, e)
Splits-All (cut {s} i e d) = let (all, last) = Splits-All d in ((IsFrame-take s i e, all), last)

-- Nothing of the normalized buffer is lost or added, the cuts are at the first blank lines, and
-- none is left uncut.
pub split_frames_exact :
    (b : Text)
    → (normalize b ≡ ended (split_frames b).0 ++ (split_frames b).1)
      × All IsFrame (split_frames b).0
      × (index_of blank (split_frames b).1 ≡ none)
split_frames_exact b =
    let d = split_frames-Splits b in let (all, last) = Splits-All d in (Splits-ended d, all, last)

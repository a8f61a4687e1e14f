-- ===== src/Text/Search.antt =====
-- Laws of `startsWith` and `indexOf`.
use mathlib.Core.Option.{some-injective}
use accp.Prelude.{
  ℕ, suc, ◌+◌, ◌≤◌, ◌≡◌, refl, sym, ap, ◌∙◌, ◌⊎◌, inl, inr, true, false, [], ◌∷◌, ◌++◌, some, arith,
  length, take, drop, Bool-cases, Option-cases,
}
use accp.Text.{Text, starts_with, index_of}

pub starts_with-append : (n s t : Text) → starts_with n s ≡ true → starts_with n (s ++ t) ≡ true
unfolding starts_with
starts_with-append [] s t h = refl
starts_with-append (a ∷ n) [] t h = cc
starts_with-append (a ∷ n) (c ∷ s) t h = ground (arith, starts_with-append n s t)

pub length-le_of_starts_with : (n s : Text) → starts_with n s ≡ true → length n ≤ length s
unfolding starts_with
length-le_of_starts_with [] s h = omega arith
length-le_of_starts_with (a ∷ n) [] h = cc
length-le_of_starts_with (a ∷ n) (c ∷ s) h = ground (arith, length-le_of_starts_with n s)

-- What follows the first `length n` units does not matter.
pub starts_with-append_long :
    (n s t : Text) → length n ≤ length s → starts_with n (s ++ t) ≡ starts_with n s
unfolding starts_with
starts_with-append_long [] s t h = refl
starts_with-append_long (a ∷ n) [] t h = elim h [ ]
starts_with-append_long (a ∷ n) (c ∷ s) t h = ground (arith, starts_with-append_long n s t)

-- Where an occurrence can be.
pub index_of-cons :
    (n : Text) (c : ℕ) (s : Text) (i : ℕ)
    → index_of n (c ∷ s) ≡ some i
    → ((starts_with n (c ∷ s) ≡ true) × (i ≡ 0))
      ⊎ ((starts_with n (c ∷ s) ≡ false) × ((j : ℕ) × (index_of n s ≡ some j) × (i ≡ suc j)))
unfolding index_of
index_of-cons n c s i h = elim (Bool-cases (starts_with n (c ∷ s))) [
  | inl e ↦ inl (e, ground arith)
  | inr e ↦ elim (Option-cases (index_of n s)) [
    | inl none_there ↦ absurd (ground arith)
    | inr (j, at_j) ↦ inr (e, (j, at_j, ground arith))
  ]
]

-- An occurrence lies within the text.
pub index_of-le : (n s : Text) (i : ℕ) → index_of n s ≡ some i → i + length n ≤ length s
index_of-le [] [] i h = unfold index_of in omega (arith, some-injective _ _ h)
index_of-le (a ∷ n) [] i h = unfold index_of in cc h
index_of-le n (c ∷ s) i h = elim (index_of-cons n c s i h) [
  | inl (here, e) ↦ omega (arith, length-le_of_starts_with n (c ∷ s) here)
  | inr (_, (j, later, e)) ↦ omega (arith, index_of-le n s j later)
]

-- The first occurrence stays the first one when the text grows at its end.
pub index_of-append : (n s t : Text) (i : ℕ) → index_of n s ≡ some i → index_of n (s ++ t) ≡ some i
unfolding index_of
index_of-append [] [] [] i h = h
index_of-append [] [] (c ∷ t) i h = unfold starts_with in h
index_of-append (a ∷ n) [] t i h = cc h
index_of-append n (c ∷ s) t i h = elim (index_of-cons n c s i h) [
  | inl (here, e) ↦ ground (arith, starts_with-append n (c ∷ s) t here)
  | inr (not_here, (j, later, e)) ↦ ground (
    arith,
    index_of-append n s t j later,
    index_of-le n s j later,
    starts_with-append_long n (c ∷ s) t (omega (arith, index_of-le n s j later)),
  )
]

pub starts_with-split : (n s : Text) → starts_with n s ≡ true → s ≡ n ++ drop (length n) s
unfolding starts_with
starts_with-split [] s h = refl
starts_with-split (a ∷ n) [] h = cc
starts_with-split (a ∷ n) (c ∷ s) h = ground (arith, starts_with-split n s)

-- A text is what stands before an occurrence, the occurrence, and what stands behind it.
pub index_of-split :
    (n s : Text) (i : ℕ) → index_of n s ≡ some i → s ≡ take i s ++ (n ++ drop (i + length n) s)
index_of-split [] [] i h = unfold index_of in rw (some-injective _ _ (sym h))
index_of-split (a ∷ n) [] i h = unfold index_of in cc h
index_of-split n (c ∷ s) i h = elim (index_of-cons n c s i h) [
  | inl (here, e) ↦
      rw e (starts_with-split n (c ∷ s) here ∙ ap (λ k. n ++ drop k (c ∷ s)) (omega arith))
  | inr (_, (j, later, e)) ↦ rw e (
      ap (c ∷◌) (
        index_of-split n s j later
        ∙ ap (λ u. take j s ++ (n ++ u))
            (ap (λ k. drop k (c ∷ s)) {x = suc (j + length n)} {y = suc j + length n}
              (omega arith))))
]

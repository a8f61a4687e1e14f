-- ===== src/Prelude/Sorting.antt =====
-- A stable sort, as `Array.prototype.sort` is one: `stays e d` tells that `e`, which stood before
-- `d`, may stay there.
use mathlib.Core.Path.{◌≡◌, sym, ap, subst, ◌∙◌}
use mathlib.Core.Logic.{inl, inr}
use mathlib.Core.Bool.{Bool, true, false}
use mathlib.Core.Option.{none, some}
use native.Mathlib.Omega.{arith}
use mathlib.Core.List.{List, [], ◌∷◌}
use accp.Prelude.Tests.{if◌then◌else◌, Bool-cases}
use accp.Prelude.Lists.{All, find?}

module _ {ℓ} {A : Type ℓ} (stays : A → A → Bool) where
  abbrev pub insert_by : A → List A → List A
  insert_by d [] = d ∷ []
  insert_by d (e ∷ es) = if stays e d then e ∷ insert_by d es else d ∷ e ∷ es

  -- The elements are put into `sorted`, which is sorted, one after the other.
  abbrev pub sort_into : List A → List A → List A
  sort_into [] sorted = sorted
  sort_into (d ∷ ds) sorted = sort_into ds (insert_by d sorted)

  pub All-insert_by :
      (P : A → Type 0) (d : A) (es : List A) → P d → All P es → All P (insert_by d es)
  All-insert_by P d [] h hs = (h, tt)
  All-insert_by P d (e ∷ es) h (he, hs) = elim (Bool-cases (stays e d)) [
    | inl c ↦ rw c (he, All-insert_by P d es h hs)
    | inr c ↦ rw c (h, (he, hs))
  ]

  pub All-sort_into :
      (P : A → Type 0) (ds sorted : List A) → All P ds → All P sorted → All P (sort_into ds sorted)
  All-sort_into P [] sorted h hs = hs
  All-sort_into P (d ∷ ds) sorted (h, k) hs =
      All-sort_into P ds (insert_by d sorted) k (All-insert_by P d sorted h hs)

  -- What holds of all of the sorted list holds of all that went into it.
  pub insert_by-All :
      (P : A → Type 0) (d : A) (es : List A) → All P (insert_by d es) → P d × All P es
  insert_by-All P d [] h = h
  insert_by-All P d (e ∷ es) h = elim (Bool-cases (stays e d)) [
    | inl c ↦
        let (he, hs) = subst (λ b. All P (if b then e ∷ insert_by d es else d ∷ e ∷ es)) c h in
        let (hd, k) = insert_by-All P d es hs in (hd, (he, k))
    | inr c ↦ subst (λ b. All P (if b then e ∷ insert_by d es else d ∷ e ∷ es)) c h
  ]

  pub sort_into-All :
      (P : A → Type 0) (ds sorted : List A) → All P (sort_into ds sorted) → All P ds × All P sorted
  sort_into-All P [] sorted h = (tt, h)
  sort_into-All P (d ∷ ds) sorted h =
      let (hs, k) = sort_into-All P ds (insert_by d sorted) h in
      let (hd, j) = insert_by-All P d sorted k in ((hd, hs), j)

  -- No two elements stand in an order in which they may not stay.
  abbrev pub IsSorted : List A → Type 0
  IsSorted [] = Unit
  IsSorted (d ∷ ds) = All (λ e. stays d e ≡ true) ds × IsSorted ds

  module _ (total : (a b : A) → stays a b ≡ false → stays b a ≡ true)
      (trans : (a b c : A) → stays a b ≡ true → stays b c ≡ true → stays a c ≡ true) where
    weaken :
        (d e : A) (es : List A)
        → stays d e ≡ true
        → All (λ f. stays e f ≡ true) es
        → All (λ f. stays d f ≡ true) es
    weaken d e [] h hs = tt
    weaken d e (f ∷ fs) h (k, ks) = (trans d e f h k, weaken d e fs h ks)

    insert_by-IsSorted : (d : A) (es : List A) → IsSorted es → IsSorted (insert_by d es)
    insert_by-IsSorted d [] h = (tt, tt)
    insert_by-IsSorted d (e ∷ es) (h, hs) = elim (Bool-cases (stays e d)) [
      | inl c ↦ rw c (All-insert_by (λ f. stays e f ≡ true) d es c h, insert_by-IsSorted d es hs)
      | inr c ↦ rw c ((total e d c, weaken d e es (total e d c) h), (h, hs))
    ]

    pub sort_into-IsSorted : (ds sorted : List A) → IsSorted sorted → IsSorted (sort_into ds sorted)
    sort_into-IsSorted [] sorted h = h
    sort_into-IsSorted (d ∷ ds) sorted h =
        sort_into-IsSorted ds (insert_by d sorted) (insert_by-IsSorted d sorted h)

  -- The first in a sorted list that passes a test stands before all that pass it.
  pub find-IsSorted :
      ((a : A) → stays a a ≡ true)
      → (p : A → Bool) (ds : List A) (d : A) → IsSorted ds
      → find? p ds ≡ some d
      → All (λ e. p e ≡ true → stays d e ≡ true) ds
  find-IsSorted reflexive p [] d h e = tt
  find-IsSorted reflexive p (c ∷ ds) d (h, hs) e = elim (Bool-cases (p c)) [
    | inl q ↦
        let same : c ≡ d =
          ap (λ o. elim o [ none ↦ c | some z ↦ z ])
            (sym (ap (λ b. if b then some c else find? p ds) q) ∙ e) in
        subst (λ z. All (λ e. p e ≡ true → stays z e ≡ true) (c ∷ ds)) same
          (λ k. reflexive c, forget ds h)
    | inr q ↦ (
      λ k. absurd (ground (arith, k, q)),
      find-IsSorted reflexive p ds d hs (sym (ap (λ b. if b then some c else find? p ds) q) ∙ e),
    )
  ]
    where
      forget :
          (es : List A)
          → All (λ f. stays c f ≡ true) es
          → All (λ e. p e ≡ true → stays c e ≡ true) es
      forget [] h = tt
      forget (e ∷ es) (h, hs) = (λ k. h, forget es hs)

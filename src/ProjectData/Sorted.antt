-- ===== src/ProjectData/Sorted.antt =====
-- The order of the list of tasks behind a poll for changes.
use accp.Prelude.{
  ℕ, zero, suc, ◌≤◌, ◌≡◌, inl, inr, Bool, true, false, List, [], ◌∷◌, map, All, take, length,
  length-take, arith, Bool-cases,
}
use accp.Text.{Text}
use accp.ProjectData.{Doc, insert_sorted, sort, set_all, merge_tasks}

module _ (le : Text → Text → Bool) where
  abbrev NotLater : Doc → Doc → Type 0
  NotLater d e = le e.updated_at d.updated_at ≡ true

  -- No task stands before one that was changed later.
  unfoldable pub IsLatestFirst : List Doc → Type 0
  IsLatestFirst [] = Unit
  IsLatestFirst (d ∷ ds) = All (NotLater d) ds × IsLatestFirst ds

  All-insert_sorted :
      (P : Doc → Type 0) (d : Doc) (es : List Doc) → P d → All P es → All P (insert_sorted le d es)
  unfolding insert_sorted
  All-insert_sorted P d [] h hs = (h, tt)
  All-insert_sorted P d (e ∷ es) h (he, hs) = elim (Bool-cases (le d.updated_at e.updated_at)) [
    | inl c ↦ rw c (he, All-insert_sorted P d es h hs)
    | inr c ↦ rw c (h, (he, hs))
  ]

  All-take : (P : Doc → Type 0) (n : ℕ) (es : List Doc) → All P es → All P (take n es)
  All-take P zero es h = tt
  All-take P (suc n) [] h = tt
  All-take P (suc n) (e ∷ es) (h, hs) = (h, All-take P n es hs)

  take-IsLatestFirst : (n : ℕ) (es : List Doc) → IsLatestFirst es → IsLatestFirst (take n es)
  unfolding IsLatestFirst
  take-IsLatestFirst zero es h = tt
  take-IsLatestFirst (suc n) [] h = tt
  take-IsLatestFirst (suc n) (e ∷ es) (h, hs) =
      (All-take (NotLater e) n es h, take-IsLatestFirst n es hs)

  module _ (total : (a b : Text) → le a b ≡ false → le b a ≡ true)
      (trans : (a b c : Text) → le a b ≡ true → le b c ≡ true → le a c ≡ true) where
    weaken : (d e : Doc) (es : List Doc) → NotLater d e → All (NotLater e) es → All (NotLater d) es
    weaken d e [] h hs = tt
    weaken d e (f ∷ fs) h (k, ks) =
        (trans f.updated_at e.updated_at d.updated_at k h, weaken d e fs h ks)

    insert_sorted-IsLatestFirst :
        (d : Doc) (es : List Doc) → IsLatestFirst es → IsLatestFirst (insert_sorted le d es)
    unfolding IsLatestFirst insert_sorted
    insert_sorted-IsLatestFirst d [] h = (tt, tt)
    insert_sorted-IsLatestFirst d (e ∷ es) (h, hs) =
        elim (Bool-cases (le d.updated_at e.updated_at)) [
          | inl c ↦
              rw c (All-insert_sorted (NotLater e) d es c h, insert_sorted-IsLatestFirst d es hs)
          | inr c ↦
              let later = total d.updated_at e.updated_at c in
              rw c ((later, weaken d e es later h), (h, hs))
        ]

    sort-IsLatestFirst :
        (ds sorted : List Doc) → IsLatestFirst sorted → IsLatestFirst (sort le ds sorted)
    unfolding sort
    sort-IsLatestFirst [] sorted h = h
    sort-IsLatestFirst (d ∷ ds) sorted h =
        sort-IsLatestFirst ds (insert_sorted le d sorted) (insert_sorted-IsLatestFirst d sorted h)

    -- A merged list has at most fifty tasks, the latest first, where `localeCompare` is a total order.
    pub merge_tasks-IsLatestFirst :
        (c : Doc) (changed current : List Doc)
        → IsLatestFirst (merge_tasks le (c ∷ changed) current)
          × (length (merge_tasks le (c ∷ changed) current) ≤ 50)
    unfolding merge_tasks IsLatestFirst
    merge_tasks-IsLatestFirst c changed current = (
      take-IsLatestFirst 50 _ (
          sort-IsLatestFirst
            (map {A = Text × Doc} {B = Doc} (λ entry. entry.1)
              (set_all (c ∷ changed) (set_all current [])))
            [] tt),
      omega (
        arith,
        length-take {0} 50 (
            sort le
              (map (λ (entry : Text × Doc). entry.1) (set_all (c ∷ changed) (set_all current [])))
              []),
      ),
    )

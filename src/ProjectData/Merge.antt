-- ===== src/ProjectData/Merge.antt =====
-- What a poll for changes makes of the list of tasks.
use accp.Prelude.{
  ℕ, zero, suc, ◌+◌, ◌≤◌, ◌≡◌, refl, ap, subst, ◌∙◌, ◌⊎◌, inl, inr, Bool, true, false, List, [],
  ◌∷◌, map, Option, none, some, if◌then◌else◌, All, find?, take, length, arith, Bool-cases,
}
use accp.Text.{Text, text_eq, text_eq_iff}
use accp.Assoc.{lookup, insert, lookup-insert}
use accp.ProjectData.{Doc, insert_sorted, sort, set_all, merge_tasks}

abbrev pub or_option : {A : Type 0} → Option A → Option A → Option A
or_option none o = o
or_option (some a) o = some a

-- The last of the tasks that has an id.
unfoldable pub latest : Text → List Doc → Option Doc
latest j [] = none
latest j (d ∷ ds) = or_option (latest j ds) (if text_eq d.id j then some d else none)

lookup-set_all :
    (j : Text) (ds : List Doc) (m : List (Text × Doc))
    → lookup j (set_all ds m) ≡ or_option (latest j ds) (lookup j m)
unfolding set_all latest
lookup-set_all j [] m = refl
lookup-set_all j (d ∷ ds) m =
    lookup-set_all j ds (insert d.id d m)
    ∙ rw (lookup-insert d.id j d m) (by_case (latest j ds) (text_eq d.id j))
  where
    by_case :
        (o : Option Doc) (b : Bool)
        → or_option o (if b then some d else lookup j m)
          ≡ or_option (or_option o (if b then some d else none)) (lookup j m)
    by_case none true = refl
    by_case none false = refl
    by_case (some e) b = refl

-- A map of tasks by their ids, each id once.
abbrev Absent : Text → List (Text × Doc) → Type 0
Absent key = All (λ (entry : Text × Doc). text_eq entry.0 key ≡ false)

abbrev IsKeyed : List (Text × Doc) → Type 0
IsKeyed [] = Unit
IsKeyed ((k, d) ∷ m) = (k ≡ d.id) × (Absent k m × IsKeyed m)

Absent-insert :
    (j : Text) (key : Text) (d : Doc) (m : List (Text × Doc))
    → text_eq key j ≡ false
    → Absent j m
    → Absent j (insert key d m)
unfolding insert
Absent-insert j key d [] ne h = (ne, tt)
Absent-insert j key d ((k, e) ∷ m) ne (h, hs) = elim (Bool-cases (text_eq k key)) [
  | inl e ↦ rw e (h, hs)
  | inr e ↦ rw e (h, Absent-insert j key d m ne hs)
]

insert-IsKeyed : (d : Doc) (m : List (Text × Doc)) → IsKeyed m → IsKeyed (insert d.id d m)
unfolding insert
insert-IsKeyed d [] h = (refl, (tt, tt))
insert-IsKeyed d ((k, e) ∷ m) (own, (absent, h)) = elim (Bool-cases (text_eq k d.id)) [
  | inl same ↦ rw same ((text_eq_iff k d.id).0 same, (absent, h))
  | inr other ↦ rw other (
    own,
    (
      Absent-insert k d.id d m (ground (arith, other, text_eq_iff k d.id, text_eq_iff d.id k))
          absent,
      insert-IsKeyed d m h,
    ),
  )
]

set_all-IsKeyed : (ds : List Doc) (m : List (Text × Doc)) → IsKeyed m → IsKeyed (set_all ds m)
unfolding set_all
set_all-IsKeyed [] m h = h
set_all-IsKeyed (d ∷ ds) m h = set_all-IsKeyed ds (insert d.id d m) (insert-IsKeyed d m h)

abbrev values : List (Text × Doc) → List Doc
values m = map (λ (entry : Text × Doc). entry.1) m

abbrev pub of_id : Text → Doc → Bool
of_id j d = text_eq d.id j

find-values :
    (j : Text) (m : List (Text × Doc)) → IsKeyed m → find? (of_id j) (values m) ≡ lookup j m
unfolding lookup
find-values j [] h = refl
find-values j ((k, d) ∷ m) (own, (absent, h)) = rw (own, find-values j m h) refl

length-insert :
    (key : Text) (d : Doc) (m : List (Text × Doc)) → length (insert key d m) ≤ suc (length m)
unfolding insert
length-insert key d [] = omega arith
length-insert key d ((k, e) ∷ m) = ground (arith, length-insert key d m)

length-set_all :
    (ds : List Doc) (m : List (Text × Doc)) → length (set_all ds m) ≤ length ds + length m
unfolding set_all
length-set_all [] m = omega arith
length-set_all (d ∷ ds) m =
    omega (arith, length-set_all ds (insert d.id d m), length-insert d.id d m)

length-values : (m : List (Text × Doc)) → length (values m) ≡ length m
length-values [] = refl
length-values ((k, d) ∷ m) = ap suc (length-values m)

take-all : (n : ℕ) (ds : List Doc) → length ds ≤ n → take n ds ≡ ds
take-all zero [] h = refl
take-all zero (d ∷ ds) h = absurd (omega arith)
take-all (suc n) [] h = refl
take-all (suc n) (d ∷ ds) h = ap (d ∷◌) (take-all n ds (omega (arith, h)))

AtMostOne : (Doc → Bool) → List Doc → Type 0
AtMostOne p [] = Unit
AtMostOne p (d ∷ ds) = (p d ≡ true → find? p ds ≡ none) × AtMostOne p ds

lookup-Absent : (j : Text) (ws : List (Text × Doc)) → Absent j ws → lookup j ws ≡ none
unfolding lookup
lookup-Absent j [] h = refl
lookup-Absent j ((k, e) ∷ ws) (h, hs) = rw h (lookup-Absent j ws hs)

values-AtMostOne : (j : Text) (m : List (Text × Doc)) → IsKeyed m → AtMostOne (of_id j) (values m)
unfolding AtMostOne
values-AtMostOne j [] h = tt
values-AtMostOne j ((k, d) ∷ m) (own, (absent, h)) = (
  λ e.
      find-values j m h
      ∙ lookup-Absent j m (subst (λ key. Absent key m) (own ∙ (text_eq_iff d.id j).0 e) absent),
  values-AtMostOne j m h,
)

module _ (le : Text → Text → Bool) where
  length-insert_sorted :
      (d : Doc) (es : List Doc) → length (insert_sorted le d es) ≡ suc (length es)
  unfolding insert_sorted
  length-insert_sorted d [] = refl
  length-insert_sorted d (e ∷ es) = ground (arith, length-insert_sorted d es)

  length-sort : (ds sorted : List Doc) → length (sort le ds sorted) ≡ length ds + length sorted
  unfolding sort
  length-sort [] sorted = omega arith
  length-sort (d ∷ ds) sorted =
      omega (arith, length-sort ds (insert_sorted le d sorted), length-insert_sorted d sorted)

  find-insert_sorted :
      (p : Doc → Bool) (d : Doc) (es : List Doc)
      → (p d ≡ true → find? p es ≡ none)
      → find? p (insert_sorted le d es) ≡ (if p d then some d else find? p es)
  unfolding insert_sorted
  find-insert_sorted p d [] h = refl
  find-insert_sorted p d (e ∷ es) h =
      ground (arith, h, find-insert_sorted p d es (λ q. ground (arith, h q)))

  find-sort :
      (p : Doc → Bool) (ds sorted : List Doc)
      → AtMostOne p ds
      → (find? p ds ≡ none) ⊎ (find? p sorted ≡ none)
      → find? p (sort le ds sorted) ≡ or_option (find? p ds) (find? p sorted)
  unfolding sort AtMostOne
  find-sort p [] sorted u x = refl
  find-sort p (d ∷ ds) sorted (u, us) x = elim (Bool-cases (p d)) [
    | inl e ↦
        find-sort p ds (insert_sorted le d sorted) us (inl (u e))
        ∙ rw (u e, find-insert_sorted p d sorted (λ q. none_in e x), e) refl
    | inr e ↦
        let inserted : find? p (insert_sorted le d sorted) ≡ find? p sorted =
          find-insert_sorted p d sorted (λ q. ground (arith, q, e)) ∙ rw e refl in
        find-sort p ds (insert_sorted le d sorted) us
          (elim x [ inl n ↦ inl (ground (arith, n, e)) | inr n ↦ inr (inserted ∙ n) ])
        ∙ rw (inserted, e) refl
  ]
    where
      none_in :
          p d ≡ true → (find? p (d ∷ ds) ≡ none) ⊎ (find? p sorted ≡ none) → find? p sorted ≡ none
      none_in e (inl n) = ground (arith, e, n)
      none_in e (inr n) = n

  -- The task that a merged list has for an id is the last with that id in the changes, or else the
  -- one in the list as it was; so none that is there is out of date, and none is lost, as long as
  -- both have no more than fifty tasks together.
  pub find-merge_tasks :
      (j : Text) (c : Doc) (changed current : List Doc)
      → length (c ∷ changed) + length current ≤ 50
      → find? (of_id j) (merge_tasks le (c ∷ changed) current)
        ≡ or_option (latest j (c ∷ changed)) (latest j current)
  unfolding merge_tasks
  find-merge_tasks j c changed current few =
      ap (find? (of_id j)) (
        take-all 50 (sort le (values merged) []) (
          omega (
            arith,
            few,
            length-sort (values merged) [],
            length-values merged,
            length-set_all (c ∷ changed) before,
            length-set_all current [],
          )))
      ∙ find-sort (of_id j) (values merged) [] (values-AtMostOne j merged keyed) (inr refl)
      ∙ or_option-none _
      ∙ find-values j merged keyed
      ∙ lookup-set_all j (c ∷ changed) before
      ∙ ap (or_option (latest j (c ∷ changed)))
          (lookup-set_all j current [] ∙ unfold lookup in or_option-none _)
    where
      before : List (Text × Doc)
      before = set_all current []

      merged : List (Text × Doc)
      merged = set_all (c ∷ changed) before

      keyed : IsKeyed merged
      keyed = set_all-IsKeyed (c ∷ changed) before (set_all-IsKeyed current [] tt)

      or_option-none : (o : Option Doc) → or_option o none ≡ o
      or_option-none none = refl
      or_option-none (some d) = refl

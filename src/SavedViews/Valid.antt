-- ===== src/SavedViews/Valid.antt =====
-- Lists of saved views that are fit to be stored, and that every operation gives one.
use accp.Prelude.{
  ℕ, suc, ◌-◌, ◌≤◌, ◌≡◌, ◌<◌, ◌≢◌, inl, inr, Bool, false, not, List, [], ◌∷◌, ◌++◌, Option, none,
  some, arith, leb, length, length-append, length-drop, length-filter, drop, filter, any, All,
  All-append, All-drop, All-filter, Bool-cases, Option-cases,
}
use accp.Text.{Text, text_eq, text_eq_iff, is_empty, trim}
use accp.Text.Trim.{trim-trim}
use accp.Json.{Json, Items, arr, nil, cons}
use accp.SavedViews.{
  SavedView, max_saved_views, read_entry, same_name, collect, from_json, parse_saved_views,
  upsert_saved_view, remove_saved_view,
}

-- A name is trimmed, and not blank.
abbrev pub IsNamed : SavedView → Type 0
IsNamed v = (trim v.name ≡ v.name) × (v.name ≢ [])

module _ (lower : Text → Text) where
  abbrev pub Differs : SavedView → SavedView → Type 0
  Differs v w = lower v.name ≢ lower w.name

  -- No two names are the same but for case.
  abbrev pub AreDistinct : List SavedView → Type 0
  AreDistinct [] = Unit
  AreDistinct (v ∷ vs) = All (Differs v) vs × AreDistinct vs

  pub record IsValid (views : List SavedView) : Type 0 where
    pub named : All IsNamed views
    pub distinct : AreDistinct views
    pub few : length views ≤ max_saved_views

  AreDistinct-append :
      (vs : List SavedView) (w : SavedView)
      → AreDistinct vs
      → All (λ v. Differs v w) vs
      → AreDistinct (vs ++ w ∷ [])
  AreDistinct-append [] w d h = (tt, tt)
  AreDistinct-append (v ∷ vs) w (a, d) (n, h) =
      (All-append (Differs v) vs (w ∷ []) a (n, tt), AreDistinct-append vs w d h)

  AreDistinct-filter :
      (p : SavedView → Bool) (vs : List SavedView) → AreDistinct vs → AreDistinct (filter p vs)
  AreDistinct-filter p [] d = tt
  AreDistinct-filter p (v ∷ vs) (a, d) = elim (Bool-cases (p v)) [
    | inl e ↦ rw e (All-filter (Differs v) p vs a, AreDistinct-filter p vs d)
    | inr e ↦ rw e (AreDistinct-filter p vs d)
  ]

  AreDistinct-drop : (n : ℕ) (vs : List SavedView) → AreDistinct vs → AreDistinct (drop n vs)
  AreDistinct-drop ℕ.zero vs d = d
  AreDistinct-drop (suc n) [] d = d
  AreDistinct-drop (suc n) (v ∷ vs) d = AreDistinct-drop n vs d.1

  -- What the two filters by name leave.
  All_of_any :
      (name : Text) (vs : List SavedView)
      → any (λ v. same_name lower v.name name) vs ≡ false
      → All (λ v. lower v.name ≢ lower name) vs
  All_of_any name [] h = tt
  All_of_any name (v ∷ vs) h =
      (ground (arith, text_eq_iff (lower v.name) (lower name)), All_of_any name vs (ground arith))

  pub All-filter_name :
      (target : Text) (vs : List SavedView)
      → All (λ v. lower v.name ≢ target) (filter (λ v. not (text_eq (lower v.name) target)) vs)
  All-filter_name target [] = tt
  All-filter_name target (v ∷ vs) = elim (Bool-cases (text_eq (lower v.name) target)) [
    | inl e ↦ rw e (All-filter_name target vs)
    | inr e ↦ rw e (ground (arith, text_eq_iff (lower v.name) target), All-filter_name target vs)
  ]

  pushed-IsValid :
      (views : List SavedView) (name search : Text)
      → IsValid views
      → length views < max_saved_views
      → trim name ≢ []
      → any (λ v. same_name lower v.name (trim name)) views ≡ false
      → IsValid (views ++ record { name = trim name; search = search } ∷ [])
  pushed-IsValid views name search v room blank fresh = record {
    named = All-append IsNamed views _ v.named ((trim-trim name, blank), tt);
    distinct = AreDistinct-append views _ v.distinct (All_of_any (trim name) views fresh);
    few =
        omega (arith, length-append {0} views (record { name = trim name; search = search } ∷ []));
  }

  empty-IsValid : IsValid []
  empty-IsValid = record { named = tt; distinct = tt; few = omega arith }

  ne_nil : (s : Text) → is_empty s ≡ false → s ≢ []
  ne_nil [] h = cc
  ne_nil (c ∷ s) h = cc

  collect-IsValid :
      (entries : Items) (views : List SavedView)
      → IsValid views
      → length views < max_saved_views
      → IsValid (collect lower entries views)
  unfolding collect
  collect-IsValid nil views v room = v
  collect-IsValid (cons entry rest) views v room = elim (Option-cases (read_entry entry)) [
    | inl e ↦ rw (e, collect) (collect-IsValid rest views v room)
    | inr (x, e) ↦
        rw (e, collect)
          (elim (Bool-cases (is_empty (trim x.name))) [
            | inl blank ↦ rw blank (collect-IsValid rest views v room)
            | inr full ↦
                rw full (elim (Bool-cases (any (λ w. same_name lower w.name (trim x.name)) views)) [
                  | inl taken ↦ rw taken (collect-IsValid rest views v room)
                  | inr fresh ↦
                      let pushed = views ++ record { name = trim x.name; search = x.search } ∷ [] in
                      let valid =
                        pushed-IsValid views x.name x.search v room (ne_nil (trim x.name) full)
                          fresh in
                      rw fresh (elim (Bool-cases (leb max_saved_views (length pushed))) [
                        | inl last ↦ rw last valid
                        | inr more ↦ rw more (collect-IsValid rest pushed valid (ground arith))
                      ])
                ])
          ])
  ]

  from_json-IsValid : (stored : Option Json) → IsValid (from_json lower stored)
  from_json-IsValid (some (arr entries)) = collect-IsValid entries [] empty-IsValid (omega arith)
  from_json-IsValid _ = empty-IsValid

  -- Whatever the storage holds, the views read from it are fit to be stored.
  pub parse_saved_views-IsValid :
      (parse : Text → Option Json) (raw : Option Text) → IsValid (parse_saved_views lower parse raw)
  unfolding parse_saved_views
  parse_saved_views-IsValid parse none = empty-IsValid
  parse_saved_views-IsValid parse (some raw) = elim (Bool-cases (is_empty raw)) [
    | inl e ↦ rw e empty-IsValid
    | inr e ↦ rw e (from_json-IsValid (parse raw))
  ]

  -- Saving a view under a name that is not blank keeps the list fit.
  pub upsert_saved_view-IsValid :
      (views : List SavedView) (name search : Text)
      → IsValid views
      → trim name ≢ []
      → IsValid (upsert_saved_view lower views name search)
  unfolding upsert_saved_view
  upsert_saved_view-IsValid views name search v blank = record {
    named = All-drop IsNamed n all (
        All-append IsNamed rest _ (All-filter IsNamed _ views v.named)
          ((trim-trim name, blank), tt));
    distinct = AreDistinct-drop n all (
        AreDistinct-append rest _ (AreDistinct-filter _ views v.distinct)
          (All-filter_name (lower (trim name)) views));
    few = omega (arith, length-drop n all);
  }
    where
      rest : List SavedView
      rest = filter (λ v. not (same_name lower v.name (trim name))) views

      all : List SavedView
      all = rest ++ record { name = trim name; search = search } ∷ []

      n : ℕ
      n = length all - max_saved_views

  -- Removing a view keeps the list fit.
  pub remove_saved_view-IsValid :
      (views : List SavedView) (name : Text)
      → IsValid views
      → IsValid (remove_saved_view lower views name)
  unfolding remove_saved_view
  remove_saved_view-IsValid views name v = record {
    named = All-filter IsNamed _ views v.named;
    distinct = AreDistinct-filter _ views v.distinct;
    few = omega (arith, v.few, length-filter {0} _ views);
  }

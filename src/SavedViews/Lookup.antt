-- ===== src/SavedViews/Lookup.antt =====
-- What `findSavedView` finds behind the other operations.
use accp.Prelude.{
  ℕ, suc, ◌-◌, ◌≤◌, ◌<◌, ◌≡◌, refl, ap, ◌≢◌, ◌∙◌, inl, inr, Bool, not, List, [], ◌∷◌, ◌++◌, none,
  some, arith, if◌then◌else◌, length, length-append, length-filter, drop, filter, find?, All,
  Bool-cases,
}
use accp.Text.{Text, text_eq, text_eq_iff, text_eq_refl, trim}
use accp.SavedViews.{
  SavedView, max_saved_views, upsert_saved_view, remove_saved_view, find_saved_view,
}
use accp.SavedViews.Valid.{All-filter_name}

module _ (lower : Text → Text) where
  abbrev named : Text → SavedView → Bool
  named target v = text_eq (lower v.name) target

  find_of_All :
      (target : Text) (vs : List SavedView)
      → All (λ v. lower v.name ≢ target) vs
      → find? (named target) vs ≡ none
  find_of_All target [] h = refl
  find_of_All target (v ∷ vs) (ne, h) =
      ground (arith, text_eq_iff (lower v.name) target, find_of_All target vs h)

  find-append :
      (p : SavedView → Bool) (vs ws : List SavedView)
      → find? p vs ≡ none
      → find? p (vs ++ ws) ≡ find? p ws
  find-append p [] ws h = refl
  find-append p (v ∷ vs) ws h = ground (arith, find-append p vs ws)

  find-append_none :
      (p : SavedView → Bool) (vs ws : List SavedView)
      → find? p ws ≡ none
      → find? p (vs ++ ws) ≡ find? p vs
  find-append_none p [] ws h = h
  find-append_none p (v ∷ vs) ws h = ground (arith, find-append_none p vs ws h)

  find-drop :
      (p : SavedView → Bool) (n : ℕ) (vs ws : List SavedView)
      → n ≤ length vs
      → find? p vs ≡ none
      → find? p (drop n (vs ++ ws)) ≡ find? p ws
  find-drop p ℕ.zero vs ws le h = find-append p vs ws h
  find-drop p (suc n) [] ws le h = absurd (omega arith)
  find-drop p (suc n) (v ∷ vs) ws le h = find-drop p n vs ws (omega arith) (ground arith)

  find-filter_ne :
      (target name : Text) (vs : List SavedView)
      → target ≢ name
      → find? (named target) (filter (λ v. not (text_eq (lower v.name) name)) vs)
        ≡ find? (named target) vs
  find-filter_ne target name [] ne = refl
  find-filter_ne target name (v ∷ vs) ne = ground (
    arith,
    text_eq_iff (lower v.name) name,
    text_eq_iff (lower v.name) target,
    find-filter_ne target name vs ne,
  )

  -- A saved view is found again under its name, however that is written and spaced, and whatever
  -- else was saved before.
  pub find_saved_view-upsert_self :
      (views : List SavedView) (name name' search : Text)
      → lower (trim name') ≡ lower (trim name)
      → find_saved_view lower (upsert_saved_view lower views name search) name'
        ≡ some (record { name = trim name; search = search })
  unfolding find_saved_view upsert_saved_view
  find_saved_view-upsert_self views name name' search same = rw same (
      find-drop (named target) (length all - max_saved_views) rest (new ∷ [])
        (omega (arith, length-append {0} rest (new ∷ [])))
        (find_of_All target rest (All-filter_name lower target views))
      ∙ rw (text_eq_refl target))
    where
      target : Text
      target = lower (trim name)

      rest : List SavedView
      rest = filter (λ v. not (text_eq (lower v.name) target)) views

      new : SavedView
      new = record { name = trim name; search = search }

      all : List SavedView
      all = rest ++ new ∷ []

  -- While there is room, saving a view does not change what other names find.
  pub find_saved_view-upsert_ne :
      (views : List SavedView) (name name' search : Text)
      → lower (trim name') ≢ lower (trim name)
      → length views < max_saved_views
      → find_saved_view lower (upsert_saved_view lower views name search) name'
        ≡ find_saved_view lower views name'
  unfolding find_saved_view upsert_saved_view
  find_saved_view-upsert_ne views name name' search ne room =
      ap (λ n. find? (named target) (drop n (rest ++ new ∷ []))) none_dropped
      ∙ find-append_none (named target) rest (new ∷ [])
          (ground (arith, text_eq_iff (lower (trim name)) target))
      ∙ find-filter_ne target (lower (trim name)) views ne
    where
      target : Text
      target = lower (trim name')

      rest : List SavedView
      rest = filter (λ v. not (text_eq (lower v.name) (lower (trim name)))) views

      new : SavedView
      new = record { name = trim name; search = search }

      none_dropped : length (rest ++ new ∷ []) - max_saved_views ≡ 0
      none_dropped = omega (
        arith,
        length-append {0} rest (new ∷ []),
        length-filter {0} (λ v. not (text_eq (lower v.name) (lower (trim name)))) views,
      )

  -- After a removal the name finds nothing, and other names what they found before.
  pub find_saved_view-remove :
      (views : List SavedView) (name name' : Text)
      → find_saved_view lower (remove_saved_view lower views name) name' ≡ (
          if text_eq (lower (trim name')) (lower (trim name))
          then none
          else find_saved_view lower views name')
  unfolding find_saved_view remove_saved_view
  find_saved_view-remove views name name' =
      elim (Bool-cases (text_eq (lower (trim name')) (lower (trim name)))) [
        | inl e ↦
            rw (e, (text_eq_iff _ _).0 e)
              (find_of_All _ _ (All-filter_name lower (lower (trim name)) views))
        | inr e ↦ rw e (
            find-filter_ne _ _ views
              (λ p. ground (arith, text_eq_iff (lower (trim name')) (lower (trim name)))))
      ]

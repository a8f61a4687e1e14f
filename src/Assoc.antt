-- ===== src/Assoc.antt =====
-- A JavaScript `Map` with string keys: `set` keeps the place of a key that is there, and puts a new
-- one at the end.
use accp.Prelude.{
  ◌≡◌, refl, sym, ap, ◌∙◌, subst, true, false, Bool-cases, inl, inr, List, [], ◌∷◌, Option, none,
  some, arith, if◌then◌else◌,
}
use accp.Text.{Text, text_eq, text_eq_iff}

module _ {ℓ} {V : Type ℓ} where
  unfoldable pub lookup : Text → List (Text × V) → Option V
  lookup key [] = none
  lookup key ((k, v) ∷ m) = if text_eq k key then some v else lookup key m

  unfoldable pub insert : Text → V → List (Text × V) → List (Text × V)
  insert key v [] = (key, v) ∷ []
  insert key v ((k, w) ∷ m) = if text_eq k key then (k, v) ∷ m else (k, w) ∷ insert key v m

  unfoldable pub delete : Text → List (Text × V) → List (Text × V)
  delete key [] = []
  delete key ((k, w) ∷ m) = if text_eq k key then delete key m else (k, w) ∷ delete key m

  pub lookup-insert :
      (key j : Text) (v : V) (m : List (Text × V))
      → lookup j (insert key v m) ≡ (if text_eq key j then some v else lookup j m)
  unfolding lookup insert
  lookup-insert key j v [] = refl
  lookup-insert key j v ((k, w) ∷ m) =
      ground (arith, text_eq_iff key j, text_eq_iff k key, text_eq_iff k j, lookup-insert key j v m)

  pub lookup-delete :
      (key j : Text) (m : List (Text × V))
      → lookup j (delete key m) ≡ (if text_eq key j then none else lookup j m)
  unfolding lookup delete
  lookup-delete key j [] = ground arith
  lookup-delete key j ((k, w) ∷ m) =
      ground (arith, text_eq_iff key j, text_eq_iff k key, text_eq_iff k j, lookup-delete key j m)

  pub delete_absent : (key : Text) (m : List (Text × V)) → lookup key m ≡ none → delete key m ≡ m
  unfolding lookup delete
  delete_absent key [] h = refl
  delete_absent key ((k, w) ∷ m) h = elim (Bool-cases (text_eq k key)) [
    | inl e ↦ cc (e, h)
    | inr e ↦
        rw (e, delete_absent key m (subst (λ b. (if b then some w else lookup key m) ≡ none) e h))
          refl
  ]

  pub delete-cons_same :
      (key k : Text) (v : V) (m : List (Text × V))
      → text_eq k key ≡ true
      → delete key ((k, v) ∷ m) ≡ delete key m
  unfolding delete
  delete-cons_same key k v m e = rw e refl

  pub delete-cons_other :
      (key k : Text) (v : V) (m : List (Text × V))
      → text_eq k key ≡ false
      → delete key ((k, v) ∷ m) ≡ (k, v) ∷ delete key m
  unfolding delete
  delete-cons_other key k v m e = rw e refl

  pub delete-delete : (key : Text) (m : List (Text × V)) → delete key (delete key m) ≡ delete key m
  delete-delete key [] = unfold delete in refl
  delete-delete key ((k, w) ∷ m) = elim (Bool-cases (text_eq k key)) [
    | inl e ↦ rw (delete-cons_same key k w m e) (delete-delete key m)
    | inr e ↦
        ap (delete key) (delete-cons_other key k w m e)
        ∙ delete-cons_other key k w (delete key m) e
        ∙ ap (λ r. (k, w) ∷ r) (delete-delete key m)
        ∙ sym (delete-cons_other key k w m e)
  ]

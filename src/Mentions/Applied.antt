-- ===== src/Mentions/Applied.antt =====
-- Putting a member's name into the text.
use accp.Prelude.{
  ℕ, zero, suc, ◌+◌, ◌≤◌, ◌≡◌, refl, sym, ap, ◌∙◌, inl, inr, true, [], ◌∷◌, ◌++◌, append_assoc,
  Option, none, some, length, take, drop, length-append, length-take, arith, Option-cases,
}
use accp.Text.{Text, is_space}
use accp.ProjectData.{Membership}
use accp.Mentions.{last_at, has_space, detect_in, detect_mention, apply_mention}

take-length : (s t : Text) → take (length s) (s ++ t) ≡ s
take-length [] t = refl
take-length (c ∷ s) t = ap (c ∷◌) (take-length s t)

last_at-le : (s : Text) (i : ℕ) → last_at s ≡ some i → suc i ≤ length s
unfolding last_at
last_at-le [] i e = cc
last_at-le (c ∷ s) i e = elim (Option-cases (last_at s)) [
  | inl n ↦ ground (arith, n, e)
  | inr (j, f) ↦ ground (arith, f, e, last_at-le s j f)
]

last_at-space : (s : Text) → last_at (s ++ 32 ∷ []) ≡ last_at s
unfolding last_at
last_at-space [] = refl
last_at-space (c ∷ s) = rw (last_at-space s) refl

has_space-drop : (n : ℕ) (s : Text) → n ≤ length s → has_space (drop n (s ++ 32 ∷ [])) ≡ true
unfolding is_space
has_space-drop zero [] h = refl
has_space-drop zero (c ∷ s) h = ground (arith, has_space-drop zero s (omega arith))
has_space-drop (suc n) [] h = absurd (omega arith)
has_space-drop (suc n) (c ∷ s) h = has_space-drop n s (omega (arith, h))

detect_in-space : (s : Text) (o : Option ℕ) → last_at s ≡ o → detect_in (s ++ 32 ∷ []) o ≡ none
detect_in-space s none e = refl
detect_in-space s (some at) e = ground (arith, has_space-drop (suc at) s (last_at-le s at e))

detect_mention-space :
    (text s : Text) (caret : ℕ) → take caret text ≡ s ++ 32 ∷ [] → detect_mention text caret ≡ none
unfolding detect_mention
detect_mention-space text s caret e = rw (e, last_at-space s) (detect_in-space s (last_at s) refl)

-- Behind a mention that was put in, no mention is being typed, whatever the name is: the picker
-- closes. This is for a mention that starts in the text.
pub detect_mention-apply_mention :
    (text : Text) (start caret : ℕ) (m : Membership)
    → start ≤ length text
    → (let (text', caret') = apply_mention text start caret m in detect_mention text' caret' ≡ none)
unfolding apply_mention
detect_mention-apply_mention text start caret m h =
    detect_mention-space _ (take start text ++ 64 ∷ m.display_name) _ (
      ap (λ n. take n whole) (sym inserted_length)
      ∙ ap (take (length upto)) (sym whole_eq)
      ∙ take-length upto (drop caret text))
  where
    whole : Text
    whole = take start text ++ ((64 ∷ (m.display_name ++ 32 ∷ [])) ++ drop caret text)

    upto : Text
    upto = (take start text ++ 64 ∷ m.display_name) ++ 32 ∷ []

    inserted_length : length upto ≡ start + length (64 ∷ (m.display_name ++ 32 ∷ []))
    inserted_length = omega (
      arith,
      h,
      length-append (take start text ++ 64 ∷ m.display_name) (32 ∷ []),
      length-append (take start text) (64 ∷ m.display_name),
      length-append m.display_name (32 ∷ []),
      length-take start text,
    )

    whole_eq : upto ++ drop caret text ≡ whole
    whole_eq = simp append_assoc

-- ===== src/Notifications/Badge.antt =====
-- web/src/app/useNotifications.ts: the text of the badge.
use accp.Prelude.{ℕ, [], ◌∷◌, ◌+◌, ◌*◌, ◌-◌, min, ap, sym, ◌∙◌, ◌≡◌, ◌↔◌, ◌⊎◌, inl, inr, ◌≤◌, arith}
use accp.Text.{Text, codes}
use accp.Notifications.{badge_text, two_digits}

-- the number that a badge stands for, 100 for "99+"
value : Text → ℕ
value [] = 0
value (a ∷ []) = a - 48
value (a ∷ b ∷ []) = 10 * (a - 48) + (b - 48)
value (a ∷ b ∷ c ∷ rest) = 100

value-badge_text : (n : ℕ) → value (badge_text n) ≡ min n 100
unfolding value badge_text two_digits
value-badge_text n = ground arith

badge_text-past : (n : ℕ) → 100 ≤ n → badge_text n ≡ codes "99+"
unfolding badge_text
badge_text-past n h = ground arith

-- Two counts have the same badge exactly when they are the same, or both at or past a hundred.
pub badge_text-eq_iff :
    (m n : ℕ) → (badge_text m ≡ badge_text n) ↔ ((m ≡ n) ⊎ ((100 ≤ m) × (100 ≤ n)))
badge_text-eq_iff m n = (
  λ h.
      (let e : value (badge_text m) ≡ value (badge_text n) = ap value h in
        omega (arith, e, value-badge_text m, value-badge_text n)),
  λ h. elim h [
    | inl e ↦ ap badge_text e
    | inr (hm, hn) ↦ badge_text-past m hm ∙ sym (badge_text-past n hn)
  ],
)

-- ===== src/Notifications/Reading.antt =====
-- web/src/app/useNotifications.ts: marking notifications as read.
use accp.Prelude.{
  ℕ, ◌-◌, ◌≡◌, refl, ap, subst, ◌∙◌, ◌≤◌, arith, All, find?, map, List, [], ◌∷◌, Bool, true, false,
  ◌⊎◌, inl, inr, Bool-cases, some, none, suc, if◌then◌else◌, Option-cases,
}
use accp.Text.{Text, text_eq, text_eq_iff}
use accp.Notifications.{NotificationItem, Center, set_read, mark_read, mark_target}

-- the number of unread items
unfoldable pub unread : List NotificationItem → ℕ
unread [] = 0
unread (x ∷ xs) = if x.read then unread xs else suc (unread xs)

abbrev Other : Text → NotificationItem → Type 0
Other id item = text_eq item.id id ≡ false

-- The ids are different from each other.
unfoldable pub Distinct : List NotificationItem → Type 0
Distinct [] = Unit
Distinct (x ∷ xs) = All (Other x.id) xs × Distinct xs

abbrev has_id : Text → NotificationItem → Bool
has_id id item = text_eq item.id id

set_read_of_All :
    (id : Text) (xs : List NotificationItem) → All (Other id) xs → map (set_read id) xs ≡ xs
set_read_of_All id [] h = refl
set_read_of_All id (x ∷ xs) (h, hs) = ground (arith, h, set_read_of_All id xs hs)

-- Marking the one item of an id reads it and leaves the others.
unread-set_read :
    (id : Text) (xs : List NotificationItem) (target : NotificationItem)
    → Distinct xs
    → find? (has_id id) xs ≡ some target
    → target.read ≡ false
    → unread xs ≡ suc (unread (map (set_read id) xs))
unfolding unread Distinct
unread-set_read id [] target d e h = ground arith
unread-set_read id (x ∷ xs) target (o, d) e h = elim (Bool-cases (text_eq x.id id)) [
  | inl c ↦
      (let same : map (set_read id) xs ≡ xs =
          set_read_of_All id xs (subst (λ i. All (Other i) xs) ((text_eq_iff x.id id).0 c) o) in
        ground (arith, c, same, e, h))
  | inr c ↦ ground (arith, c, e, h, unread-set_read id xs target d)
]

find?-set_read :
    (id : Text) (xs : List NotificationItem) (target : NotificationItem)
    → find? (has_id id) xs ≡ some target
    → find? (has_id id) (map (set_read id) xs) ≡ some (set_read id target)
find?-set_read id [] target e = ground arith
find?-set_read id (x ∷ xs) target e = elim (Bool-cases (text_eq x.id id)) [
  | inl c ↦ ground (arith, c, e)
  | inr c ↦ ground (arith, c, e, find?-set_read id xs target)
]

set_read-found :
    (id : Text) (xs : List NotificationItem) (target : NotificationItem)
    → find? (has_id id) xs ≡ some target
    → (set_read id target).read ≡ true
set_read-found id [] target e = ground arith
set_read-found id (x ∷ xs) target e = elim (Bool-cases (text_eq x.id id)) [
  | inl c ↦ ground (arith, c, e)
  | inr c ↦ ground (arith, c, e, set_read-found id xs target)
]

module _ (Err : Type 0) where
  -- The badge counts at least the unread items of the list, whose ids are different.
  unfoldable pub IsCounted : Center Err → Type 0
  IsCounted c = Distinct c.items × unread c.items ≤ c.count

  marked : Text → Center Err → Center Err
  marked id c = record c { items = map (set_read id) c.items; count = c.count - 1 }

  idle-none :
      (id : Text) (c : Center Err)
      → find? (has_id id) c.items ≡ none
      → mark_read Err id c ≡ (false, c)
  unfolding mark_read mark_target
  idle-none id c e = ap (λ o. mark_target Err id o c) e

  idle-read :
      (id : Text) (c : Center Err) (target : NotificationItem)
      → find? (has_id id) c.items ≡ some target
      → target.read ≡ true
      → mark_read Err id c ≡ (false, c)
  unfolding mark_read mark_target
  idle-read id c target e h = ap (λ o. mark_target Err id o c) e ∙ rw h refl

  active :
      (id : Text) (c : Center Err) (target : NotificationItem)
      → find? (has_id id) c.items ≡ some target
      → target.read ≡ false
      → mark_read Err id c ≡ (true, marked id c)
  unfolding mark_read mark_target marked
  active id c target e h = ap (λ o. mark_target Err id o c) e ∙ rw h refl

  mark_read-cases :
      (id : Text) (c : Center Err)
      → (mark_read Err id c ≡ (false, c))
        ⊎ ((target : NotificationItem) × (find? (has_id id) c.items ≡ some target)
            × (target.read ≡ false)
            × (mark_read Err id c ≡ (true, marked id c)))
  mark_read-cases id c = elim (Option-cases (find? (has_id id) c.items)) [
    | inl e ↦ inl (idle-none id c e)
    | inr (target, e) ↦ elim (Bool-cases target.read) [
      | inl h ↦ inl (idle-read id c target e h)
      | inr h ↦ inr (target, e, h, active id c target e h)
    ]
  ]

  -- A marking that makes a request turns exactly one unread item into a read one, and lowers the
  -- badge by one: so the badge still counts at least the unread items, and the difference is kept.
  pub mark_read-IsCounted :
      (id : Text) (c : Center Err)
      → IsCounted c
      → (mark_read Err id c).0 ≡ true
      → ((unread c.items ≡ suc (unread (mark_read Err id c).1.items))
          × (c.count ≡ suc (mark_read Err id c).1.count))
        × (unread (mark_read Err id c).1.items ≤ (mark_read Err id c).1.count)
  unfolding IsCounted marked
  mark_read-IsCounted id c (d, le) asked = elim (mark_read-cases id c) [
    | inl e ↦ ground (arith, e, asked)
    | inr (target, e, h, m) ↦
        (let drop_one = unread-set_read id c.items target d e h in
          rw m ((drop_one, omega arith), omega (arith, drop_one)))
  ]

  -- Once marked, an item is not marked again: the second time makes no request and changes nothing.
  pub mark_read-mark_read :
      (id : Text) (c : Center Err)
      → mark_read Err id (mark_read Err id c).1 ≡ (false, (mark_read Err id c).1)
  unfolding marked
  mark_read-mark_read id c = elim (mark_read-cases id c) [
    | inl e ↦ rw (e, e) refl
    | inr (target, e, h, m) ↦ rw m (
        idle-read id (marked id c) (set_read id target) (find?-set_read id c.items target e)
          (set_read-found id c.items target e))
  ]

-- ===== src/Mentions/Resolved.antt =====
-- Which members a comment mentions.
use accp.Prelude.{
  ℕ, zero, suc, ◌≡◌, refl, sym, subst, ◌∙◌, inl, inr, Bool, true, List, [], ◌∷◌, ◌++◌, append_assoc,
  some, leb, ◌==◌, ==_iff, length, find?, filter, any, All, All-append, IsSorted,
  sort_into-IsSorted, sort_into-All, All-sort_into, All-filter_self, All-find, find-IsSorted, arith,
  Bool-cases, Option-cases,
}
use accp.Text.{Text, text_eq}
use accp.ProjectData.{Membership}
use accp.Mentions.{named_at, longer_name, active_members, add_id, resolve_from, resolve_mentions}

module _ (is_letter : ℕ → Bool) (text : Text) (members : List Membership) where
  -- The id is that of an active member whose name stands in the text behind an "@" and ends there,
  -- and no active member with a longer name is named at that place.
  pub record IsMentioned (id : Text) : Type 0 where
    pub member : Membership
    pub is_own : member.id ≡ id
    pub is_active : member.active ≡ true
    pub before : Text
    pub rest : Text
    pub place : text ≡ before ++ 64 ∷ rest
    pub named : named_at is_letter rest member ≡ true
    pub longest :
        All
          (λ (m : Membership).
            named_at is_letter rest m ≡ true
            → leb (length m.display_name) (length member.display_name) ≡ true)
          (filter (λ (m : Membership). m.active) members)

  abbrev active : List Membership
  active = active_members is_letter members

  active-All : All (λ (m : Membership). m.active ≡ true) active
  active-All =
      All-sort_into (longer_name is_letter) (λ (m : Membership). m.active ≡ true)
        (filter (λ (m : Membership). m.active) members) []
        (All-filter_self (λ (m : Membership). m.active) members) tt

  active-IsSorted : IsSorted (longer_name is_letter) active
  active-IsSorted =
      sort_into-IsSorted (longer_name is_letter) (λ a b h. ground (arith, h))
        (λ a b c h k. ground (arith, h, k)) (filter (λ (m : Membership). m.active) members) [] tt

  found-IsMentioned :
      (before rest : Text) (m : Membership)
      → text ≡ before ++ 64 ∷ rest
      → find? (named_at is_letter rest) active ≡ some m
      → IsMentioned m.id
  found-IsMentioned before rest m place found = record {
    member = m;
    is_own = refl;
    is_active = (All-find _ (named_at is_letter rest) active m active-All found).0;
    before = before;
    rest = rest;
    place = place;
    named = (All-find _ (named_at is_letter rest) active m active-All found).1;
    longest =
        (sort_into-All (longer_name is_letter)
          (λ (x : Membership). named_at is_letter rest x ≡ true → longer_name is_letter m x ≡ true)
          (filter (λ (m : Membership). m.active) members) []
          (find-IsSorted (longer_name is_letter) (λ a. ground arith) (named_at is_letter rest)
            active m active-IsSorted found)).0;
  }

  add_id-All :
      (P : Text → Type 0) (id : Text) (ids : List Text)
      → P id
      → All P ids
      → All P (add_id is_letter id ids)
  add_id-All P id ids h hs = elim (Bool-cases (any (λ i. text_eq i id) ids)) [
    | inl e ↦ rw e hs
    | inr e ↦ rw e (All-append P ids (id ∷ []) hs (h, tt))
  ]

  resolve_from-All :
      (skip : ℕ) (before s : Text) (ids : List Text)
      → text ≡ before ++ s
      → All IsMentioned ids
      → All IsMentioned (resolve_from is_letter active skip s ids)
  unfolding resolve_from
  resolve_from-All skip before [] ids place h = h
  resolve_from-All (suc skip) before (c ∷ s) ids place h =
      resolve_from-All skip (before ++ c ∷ []) s ids (place ∙ sym (append_assoc before (c ∷ []) s))
        h
  resolve_from-All zero before (c ∷ s) ids place h = elim (Bool-cases (c == 64)) [
    | inr e ↦ rw e (
        resolve_from-All zero (before ++ c ∷ []) s ids
          (place ∙ sym (append_assoc before (c ∷ []) s)) h)
    | inl e ↦ rw e (elim (Option-cases (find? (named_at is_letter s) active)) [
      | inl none_there ↦ rw none_there (
          resolve_from-All zero (before ++ c ∷ []) s ids
            (place ∙ sym (append_assoc before (c ∷ []) s)) h)
      | inr (m, found) ↦
          let there : text ≡ before ++ 64 ∷ s =
            subst (λ k. text ≡ before ++ k ∷ s) ((==_iff c 64).0 e) place in
          rw found (
            resolve_from-All (length m.display_name) (before ++ c ∷ []) s _
              (place ∙ sym (append_assoc before (c ∷ []) s))
              (add_id-All IsMentioned m.id ids (found-IsMentioned before s m there found) h))
    ])
  ]

  -- Every id that is sent is that of an active member whose name stands in the text behind an "@"
  -- and ends there; and of the active members who are named at that place it is one with the longest
  -- name.
  pub resolve_mentions-IsMentioned : All IsMentioned (resolve_mentions is_letter text members)
  unfolding resolve_mentions
  resolve_mentions-IsMentioned = resolve_from-All 0 [] text [] refl tt

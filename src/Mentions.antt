-- ===== src/Mentions.antt =====
-- web/src/tasks/TaskComments.tsx: the helpers of the comments. `toLowerCase` and the test for a
-- letter or a digit, `\p{L}` or `\p{N}`, are parameters.
pub mod Resolved
pub mod Applied
mod Tests
use accp.Prelude.{
  ℕ, zero, suc, ◌+◌, ◌-◌, Bool, true, false, not, ◌&&◌, ◌||◌, List, [], ◌∷◌, ◌++◌, map, Option,
  none, some, leb, ltb, ◌==◌, if◌then◌else◌, length, take, drop, find?, filter, any, get?,
  sort_into,
}
use accp.Text.{Text, codes, text_eq, is_empty, is_space, starts_with, index_of, trim}
use accp.ProjectData.{Membership}

pub record CommentItem : Type 0 where
  pub id : Text
  pub task_id : Text
  pub author_user_id : Text
  pub author_name : Text
  pub body : Text
  pub mentions : List Text
  pub edited : Bool
  pub deleted : Bool
  pub created_at : Text
  pub updated_at : Text

-- `compare a b` is `a.localeCompare(b) <= 0`.
abbrev pub older : (compare : Text → Text → Bool) → CommentItem → CommentItem → Bool
older compare a b =
    if text_eq a.created_at b.created_at
    then compare a.id b.id
    else compare a.created_at b.created_at

abbrev pub sort_comments : (compare : Text → Text → Bool) → List CommentItem → List CommentItem
sort_comments compare items = sort_into (older compare) items []

-- `lastIndexOf("@")`
pub last_at : Text → Option ℕ
last_at [] = none
last_at (c ∷ s) = elim (last_at s) [
  | some i ↦ some (suc i)
  | none ↦ if c == 64 then some 0 else none
]

-- `/\s/.test(…)`
abbrev pub has_space : Text → Bool
has_space = any is_space

abbrev pub space_before : ℕ → Text → Bool
space_before zero s = true
space_before (suc i) s = elim (get? i s) [ none ↦ false | some c ↦ is_space c ]

-- The mention behind the last "@", if there is one, of the text up to the caret.
abbrev pub detect_in : Text → Option ℕ → Option (ℕ × Text)
detect_in upto none = none
detect_in upto (some at) =
    if not (space_before at upto)
    then none
    else (if has_space (drop (suc at) upto) then none else some (at, drop (suc at) upto))

-- The start of the mention and its query.
pub detect_mention : Text → (caret : ℕ) → Option (ℕ × Text)
unfolding last_at
detect_mention text caret = detect_in (take caret text) (last_at (take caret text))

abbrev includes : Text → Text → Bool
includes s part = elim (index_of part s) [ none ↦ false | some _ ↦ true ]

pub filter_mention_candidates : (lower : Text → Text) → List Membership → Text → List Membership
filter_mention_candidates lower members query =
    let q = lower (trim query) in
    filter
      (λ (m : Membership).
        is_empty q || includes (lower m.display_name) q || includes (lower m.id) q)
      (filter (λ (m : Membership). m.active) members)

-- the text behind it, and the caret
pub apply_mention : Text → (start caret : ℕ) → Membership → Text × ℕ
apply_mention text start caret member =
    let inserted = 64 ∷ (member.display_name ++ 32 ∷ []) in
    (take start text ++ (inserted ++ drop caret text), start + length inserted)

module _ (is_letter : ℕ → Bool) where
  abbrev pub is_boundary : Option ℕ → Bool
  is_boundary none = true
  is_boundary (some c) = not (is_letter c)

  -- The member is named behind an "@", and the name ends there.
  abbrev pub named_at : Text → Membership → Bool
  named_at rest m =
      starts_with m.display_name rest && is_boundary (get? (length m.display_name) rest)

  abbrev pub longer_name : Membership → Membership → Bool
  longer_name a b = leb (length b.display_name) (length a.display_name)

  abbrev pub active_members : List Membership → List Membership
  active_members members = sort_into longer_name (filter (λ (m : Membership). m.active) members) []

  abbrev pub add_id : Text → List Text → List Text
  add_id id ids = if any (λ i. text_eq i id) ids then ids else ids ++ id ∷ []

  -- The loop of `resolveMentions`; `skip` is how far the body of the loop has moved `i`.
  pub resolve_from : List Membership → (skip : ℕ) → Text → List Text → List Text
  resolve_from active skip [] ids = ids
  resolve_from active (suc skip) (c ∷ s) ids = resolve_from active skip s ids
  resolve_from active zero (c ∷ s) ids =
      let next = resolve_from active zero s ids in
      if not (c == 64) then next else elim (find? (named_at s) active) [
        | none ↦ next
        | some m ↦ resolve_from active (length m.display_name) s (add_id m.id ids)
      ]

  pub resolve_mentions : Text → List Membership → List Text
  unfolding resolve_from
  resolve_mentions text members = resolve_from (active_members members) 0 text []

-- `sendErrorKey`: an error of the API has a code, another none.
pub data ErrorKey : Type 0 where
  invalid_member : ErrorKey
  not_sent : ErrorKey

pub send_error_key : (code : Option Text) → ErrorKey
send_error_key none = not_sent
send_error_key (some code) =
    if text_eq code (codes "INVALID_MENTION") then invalid_member else not_sent

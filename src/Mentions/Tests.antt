-- ===== src/Mentions/Tests.antt =====
-- web/src/tasks/TaskComments.tsx: the helpers at concrete inputs.
use accp.Prelude.{
  ℕ, ◌≡◌, refl, Bool, true, false, ◌&&◌, ◌||◌, List, [], ◌∷◌, none, some, leb, All, arith,
}
use accp.Text.{Text, codes, starts_with, text_eq, is_space}
use accp.ProjectData.{Membership}
use accp.Mentions.{detect_mention, last_at, apply_mention, resolve_mentions, resolve_from}
use accp.Mentions.Resolved.{IsMentioned, resolve_mentions-IsMentioned}
use accp.Mentions.Applied.{detect_mention-apply_mention}

abbrev ascii_letter : ℕ → Bool
ascii_letter c = leb 48 c && leb c 57 || leb 65 c && leb c 90 || leb 97 c && leb c 122

abbrev member : ℕ → Text → Bool → Membership
member n name active = record {
  id = n ∷ [];
  organization_id = codes "o";
  project_id = codes "p";
  display_name = name;
  roles = [];
  membership_active = none;
  account_active = none;
  active = active;
  version = 1;
}

abbrev team : List Membership
team =
    member 97 (codes "Bob") true
    ∷ member 98 (codes "Bobby") true
    ∷ member 99 (codes "Eve") false
    ∷ []

abbrev comment : Text
comment = codes "@Bobby and @Bob, not @Eve or @Bobo"

resolve_run : resolve_mentions ascii_letter comment team ≡ codes "b" ∷ codes "a" ∷ []
unfolding resolve_mentions resolve_from starts_with text_eq
resolve_run = refl

detect_run : detect_mention (codes "hi @Bo and") 6 ≡ some (3, codes "Bo")
unfolding detect_mention last_at is_space
detect_run = refl

resolve_mentions-IsMentioned_example :
    All (IsMentioned ascii_letter comment team) (resolve_mentions ascii_letter comment team)
resolve_mentions-IsMentioned_example = resolve_mentions-IsMentioned ascii_letter comment team

detect_mention-apply_mention_example :
    (let (text, caret) = apply_mention (codes "hi @Bo and") 3 6 (member 98 (codes "Bobby") true) in
      detect_mention text caret ≡ none)
detect_mention-apply_mention_example =
    detect_mention-apply_mention (codes "hi @Bo and") 3 6 (member 98 (codes "Bobby") true)
      (omega arith)

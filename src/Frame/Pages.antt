-- ===== src/Frame/Pages.antt =====
-- web/src/app/App.tsx: the navigation and the pages that are shown agree on who may see what.
use mathlib.Core.Option.{some-injective}
use accp.Prelude.{
  ◌≡◌, refl, ap, sym, subst, ◌↔◌, ◌⊎◌, inl, inr, Bool, true, false, not, ◌&&◌, ◌||◌, List, [], ◌∷◌,
  Option, none, some, if◌then◌else◌, any, find?, arith, Option-cases, find?,
}
use accp.Text.{Text, codes, text_eq, is_empty}
use accp.Routing.{
  PageId, project, page_text, overview, tasks, contexts, artifacts, approvals, agents, tools,
  members, audit, management, operations, help,
}
use accp.ProjectData.{Doc, Console}
use accp.Frame.{
  Access, is_allowed, allowed_nav, is_management, management_entry, View, page_view, Screen,
  forbidden, management_view, workspace, overview_view, task_view, tasks_view, contexts_view,
  artifacts_view, approvals_view, agents_view, members_view, audit_view, tools_view,
  operations_view, help_view, is_archived, is_some, no_docs, project_screen, screen, current_access,
  current_project,
}

-- The navigation offers a page exactly if its test allows it.
nav-is_allowed :
    (a : Access) (page : PageId)
    → any (λ item. text_eq (page_text item) (page_text page)) (allowed_nav a) ≡ is_allowed a page
unfolding allowed_nav is_allowed text_eq
nav-is_allowed a overview = refl
nav-is_allowed a tasks = refl
nav-is_allowed a contexts = refl
nav-is_allowed a artifacts = refl
nav-is_allowed a approvals = ground arith
nav-is_allowed a members = ground arith
nav-is_allowed a agents = ground arith
nav-is_allowed a help = ground arith
nav-is_allowed a management = ground arith
nav-is_allowed a tools = ground arith
nav-is_allowed a operations = ground arith
nav-is_allowed a audit = ground arith

-- What page a component belongs to.
abbrev page_of_view : View → PageId
page_of_view overview_view = overview
page_of_view (task_view id) = tasks
page_of_view tasks_view = tasks
page_of_view contexts_view = contexts
page_of_view artifacts_view = artifacts
page_of_view approvals_view = approvals
page_of_view agents_view = agents
page_of_view members_view = members
page_of_view audit_view = audit
page_of_view tools_view = tools
page_of_view operations_view = operations
page_of_view help_view = help

-- The screen is the page's own.
abbrev pub IsOwnScreen : PageId → Screen → Type 0
IsOwnScreen management s = s ≡ management_view
IsOwnScreen page s =
    (archived : Bool) × (restorable : Bool) × (view : View) × (s
      ≡ workspace archived restorable (some view))
    × (page_of_view view ≡ page)

-- What is shown for a page that the user may see, or may not.
abbrev pub IsJust : (allowed : Bool) → PageId → Screen → Type 0
IsJust true page s = IsOwnScreen page s
IsJust false page s = s ≡ forbidden

abbrev own_text : Text
own_text = codes "management"

-- The screen behind the tests of the project, for a page that the navigation has.
abbrev behind : Access → PageId → (task : Option Text) → (archived restorable : Bool) → Screen
behind a page task archived restorable =
    if text_eq (page_text page) own_text && (a.admin || a.is_org_admin)
    then management_view
    else workspace archived restorable (page_view a page task)

tasks-IsOwnScreen :
    (a : Access) (task : Option Text) (x r : Bool) → IsOwnScreen tasks (behind a tasks task x r)
unfolding page_view text_eq
tasks-IsOwnScreen a none x r = (x, r, tasks_view, refl, refl)
tasks-IsOwnScreen a (some []) x r = (x, r, tasks_view, refl, refl)
tasks-IsOwnScreen a (some (c ∷ id)) x r = (x, r, task_view (c ∷ id), refl, refl)

behind-IsOwnScreen :
    (a : Access) (page : PageId) (task : Option Text) (x r : Bool)
    → is_allowed a page ≡ true
    → IsOwnScreen page (behind a page task x r)
unfolding page_view is_allowed text_eq
behind-IsOwnScreen a overview task x r h = (x, r, overview_view, refl, refl)
behind-IsOwnScreen a tasks task x r h = tasks-IsOwnScreen a task x r
behind-IsOwnScreen a contexts task x r h = (x, r, contexts_view, refl, refl)
behind-IsOwnScreen a artifacts task x r h = (x, r, artifacts_view, refl, refl)
behind-IsOwnScreen a members task x r h = (x, r, members_view, refl, refl)
behind-IsOwnScreen a help task x r h = (x, r, help_view, refl, refl)
behind-IsOwnScreen a approvals task x r h = (
  x,
  r,
  approvals_view,
  ap (λ b. workspace x r (if b then some approvals_view else none)) h,
  refl,
)
behind-IsOwnScreen a agents task x r h =
    (x, r, agents_view, ap (λ b. workspace x r (if b then some agents_view else none)) h, refl)
behind-IsOwnScreen a audit task x r h =
    (x, r, audit_view, ap (λ b. workspace x r (if b then some audit_view else none)) h, refl)
behind-IsOwnScreen a tools task x r h =
    (x, r, tools_view, ap (λ b. workspace x r (if b then some tools_view else none)) h, refl)
behind-IsOwnScreen a operations task x r h = (
  x,
  r,
  operations_view,
  ap (λ b. workspace x r (if b then some operations_view else none)) h,
  refl,
)
behind-IsOwnScreen a management task x r h =
    ap (λ b. if b then management_view else workspace x r none) h

module _ {Err : Type 0} where
  found-listed :
      (s : Console Err) → is_some (current_project Err s) ≡ true → no_docs s.projects ≡ false
  unfolding current_project
  found-listed s h = by_list s.projects h
    where
      by_list :
          (ps : List Doc)
          → is_some (find? (λ (p : Doc). text_eq p.id s.project_id) ps) ≡ true
          → no_docs ps ≡ false
      by_list [] e = cc
      by_list (p ∷ ps) e = refl

  -- Where the data of the project are there, a page that the user may see shows its own component,
  -- and never an empty place, and any other page is refused: the navigation and the guards of the
  -- pages agree.
  pub screen-by_access :
      (id : Text) (page : PageId) (task : Option Text) (token : Text) (me : Doc) (s : Console Err)
      → is_empty token ≡ false
      → s.project_unavailable ≡ false
      → s.loaded ≡ true
      → is_some (current_project Err s) ≡ true
      → IsJust
          (is_allowed (current_access Err me s) page)
          page
          (screen Err (project id page task false) token (some me) s)
  unfolding screen project_screen
  screen-by_access id page task token me s signed_in there loaded found =
      rw
        (
          signed_in,
          there,
          loaded,
          found,
          nav-is_allowed (current_access Err me s) page,
          found-listed s found,
        )
        (just (is_allowed (current_access Err me s) page) refl)
    where
      just :
          (b : Bool)
          → is_allowed (current_access Err me s) page ≡ b
          → IsJust b page (
              if not b
              then forbidden
              else behind
                  (current_access Err me s)
                  page
                  task
                  (is_archived (current_project Err s))
                  (is_archived (current_project Err s) && (current_access Err me s).admin))
      just true h = behind-IsOwnScreen (current_access Err me s) page task _ _ h
      just false h = refl

-- The pages of the management area.
abbrev pub management_pages : List PageId
management_pages = management ∷ tools ∷ operations ∷ audit ∷ []

entry_cases :
    (admin reviewer org : Bool) (p : PageId)
    → (if admin || reviewer || org then some (if admin || org then management else audit) else none)
      ≡ some p
    → ((p ≡ management) × ((admin || org) ≡ true)) ⊎ ((p ≡ audit) × (reviewer ≡ true))
entry_cases true reviewer org p e = inl (sym (some-injective _ _ e), refl)
entry_cases false true true p e = inl (sym (some-injective _ _ e), refl)
entry_cases false true false p e = inr (sym (some-injective _ _ e), refl)
entry_cases false false true p e = inl (sym (some-injective _ _ e), refl)
entry_cases false false false p e = cc

no_entry :
    (admin reviewer org : Bool)
    → ((if admin || reviewer || org
          then some (if admin || org then management else audit)
          else none)
        ≡ none)
      ↔ ((admin || org || (admin || (admin || (reviewer || false)))) ≡ false)
no_entry admin reviewer org = ground arith

-- What the button of the management area opens.
abbrev pub IsEntry : Access → Option PageId → Type 0
IsEntry a none = any (is_allowed a) management_pages ≡ false
IsEntry a (some p) = (is_allowed a p ≡ true) × (is_management p ≡ true)

-- The button of the management area opens a page of it that the user may see, and where there is no
-- button the user may see none of them.
pub management_entry-IsEntry : (a : Access) → IsEntry a (management_entry a)
unfolding management_entry is_allowed
management_entry-IsEntry a = elim (Option-cases (management_entry a)) [
  | inl e ↦ subst (IsEntry a) (sym e) ((no_entry a.admin a.reviewer a.is_org_admin).0 e)
  | inr (p, e) ↦
      subst (IsEntry a) (sym e) (elim (entry_cases a.admin a.reviewer a.is_org_admin p e) [
        | inl (same, h) ↦
            subst (λ q. (is_allowed a q ≡ true) × (is_management q ≡ true)) (sym same) (h, refl)
        | inr (same, h) ↦
            subst (λ q. (is_allowed a q ≡ true) × (is_management q ≡ true)) (sym same) (h, refl)
      ])
]

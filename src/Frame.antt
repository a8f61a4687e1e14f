-- ===== src/Frame.antt =====
-- web/src/app/App.tsx: who may see which page, and what the console shows.
pub mod Pages
mod Tests
use accp.Prelude.{
  Bool, true, false, not, ◌&&◌, ◌||◌, List, [], ◌∷◌, Option, none, some, if◌then◌else◌, any, find?,
  filter,
}
use accp.Text.{Text, codes, text_eq, is_empty}
use accp.Json.{Json, Items, null, bool, num, str, arr, obj, nil, cons, property}
use accp.Routing.{
  PageId, Route, project, work, page_text, overview, tasks, contexts, artifacts, approvals, agents,
  tools, members, audit, management, operations, help,
}
use accp.ProjectData.{Doc, Membership, Console}

-- `includes`
abbrev pub includes : Text → List Text → Bool
includes role roles = any (text_eq role) roles

abbrev pub field : Text → Doc → Option Json
field key d = elim d.fields [ obj ms ↦ property key ms | _ ↦ none ]

abbrev pub items_include : Text → Items → Bool
items_include role nil = false
items_include role (cons (str s) rest) = text_eq role s || items_include role rest
items_include role (cons _ rest) = items_include role rest

-- `project?.roles?.includes(role)`
pub has_project_role : Text → Option Doc → Bool
has_project_role role none = false
has_project_role role (some d) = elim (field (codes "roles") d) [
  | some (arr items) ↦ items_include role items
  | _ ↦ false
]

pub is_archived : Option Doc → Bool
is_archived none = false
is_archived (some d) = elim (field (codes "status") d) [
  | some (str s) ↦ text_eq s (codes "ARCHIVED")
  | _ ↦ false
]

-- What the user may do in the project.
pub record Access : Type 0 where
  pub roles : List Text
  pub admin : Bool
  pub is_org_admin : Bool
  pub reviewer : Bool

pub org_admin : (me : Doc) → Bool
org_admin me = elim (field (codes "is_org_admin") me) [ some (bool true) ↦ true | _ ↦ false ]

abbrev pub access_of : (roles : List Text) → (current : Option Doc) → (me : Doc) → Access
access_of roles current me =
    let admin = includes (codes "ADMIN") roles || has_project_role (codes "ADMIN") current in
    record {
      roles = roles;
      admin = admin;
      is_org_admin = org_admin me;
      reviewer = includes (codes "REVIEWER") roles || admin;
    }

-- `allNav`, by the pages
abbrev pub all_nav : List PageId
all_nav =
    overview ∷ tasks ∷ contexts ∷ artifacts ∷ approvals ∷ members ∷ agents ∷ help ∷ management
    ∷ tools ∷ operations ∷ audit ∷ []

-- The test of `allowedNav`.
pub is_allowed : Access → PageId → Bool
is_allowed a management = a.admin || a.is_org_admin
is_allowed a operations = a.admin
is_allowed a tools = a.admin
is_allowed a agents = a.admin || includes (codes "MEMBER") a.roles
is_allowed a approvals = a.reviewer
is_allowed a audit = a.reviewer
is_allowed a _ = true

pub allowed_nav : Access → List PageId
unfolding is_allowed
allowed_nav a = filter (is_allowed a) all_nav

-- `managementPages`
abbrev pub is_management : PageId → Bool
is_management management = true
is_management tools = true
is_management operations = true
is_management audit = true
is_management _ = false

abbrev same : Bool → Bool → Bool
same true b = b
same false b = not b

pub nav : Access → (page : PageId) → List PageId
unfolding allowed_nav
nav a page = filter (λ item. same (is_management item) (is_management page)) (allowed_nav a)

-- The page that the button of the management area opens, if it is there.
pub management_entry : Access → Option PageId
management_entry a =
    if a.admin || a.reviewer || a.is_org_admin
    then some (if a.admin || a.is_org_admin then management else audit)
    else none

-- The component of a page.
pub data View : Type 0 where
  overview_view : View
  task_view : Text → View
  tasks_view : View
  contexts_view : View
  artifacts_view : View
  approvals_view : View
  agents_view : View
  members_view : View
  audit_view : View
  tools_view : View
  operations_view : View
  help_view : View

abbrev guarded : Bool → View → Option View
guarded b v = if b then some v else none

abbrev task_or_list : Option Text → View
task_or_list none = tasks_view
task_or_list (some id) = if is_empty id then tasks_view else task_view id

-- The list of pages in the workspace, at most one of which is there.
pub page_view : Access → PageId → (task_id : Option Text) → Option View
page_view a overview task = some overview_view
page_view a tasks task = some (task_or_list task)
page_view a contexts task = some contexts_view
page_view a artifacts task = some artifacts_view
page_view a approvals task = guarded a.reviewer approvals_view
page_view a agents task = guarded (a.admin || includes (codes "MEMBER") a.roles) agents_view
page_view a members task = some members_view
page_view a audit task = guarded a.reviewer audit_view
page_view a tools task = guarded a.admin tools_view
page_view a operations task = guarded a.admin operations_view
page_view a help task = some help_view
page_view a management task = none

pub data Screen : Type 0 where
  login : Screen
  invalid_link : (project_id : Text) → Screen
  my_work : Screen
  not_found : Screen
  forbidden : Screen
  management_view : Screen
  no_projects : Screen
  reading : Screen
  workspace : (archived : Bool) → (restorable : Bool) → Option View → Screen
  nothing : Screen

abbrev pub is_some : Option Doc → Bool
is_some none = false
is_some (some _) = true

abbrev pub no_docs : List Doc → Bool
no_docs [] = true
no_docs (_ ∷ _) = false

module _ (Err : Type 0) where
  -- `project`
  pub current_project : Console Err → Option Doc
  current_project s = find? (λ (p : Doc). text_eq p.id s.project_id) s.projects

  abbrev found_roles : Option Membership → List Text
  found_roles none = []
  found_roles (some m) = m.roles

  pub current_roles : (me : Doc) → Console Err → List Text
  current_roles me s =
      if text_eq s.data_project_id s.project_id
      then found_roles (find? (λ (m : Membership). text_eq m.id me.id) s.content.members)
      else []

  pub current_access : (me : Doc) → Console Err → Access
  unfolding current_project current_roles has_project_role org_admin
  current_access me s = access_of (current_roles me s) (current_project s) me

  -- The body of a project's page, from the tests of the link on.
  pub project_screen : Access → (task_id : Option Text) → PageId → Option Doc → Console Err → Screen
  unfolding is_allowed page_view is_archived allowed_nav
  project_screen a task page current s =
      if s.project_unavailable
      then not_found
      else (if s.loaded
            && is_some current
            && not (any (λ item. text_eq (page_text item) (page_text page)) (allowed_nav a))
          then forbidden
          else (if text_eq (page_text page) (codes "management") && (a.admin || a.is_org_admin)
              then management_view
              else (if no_docs s.projects
                  then no_projects
                  else (if not s.loaded
                      then reading
                      else (if is_some current
                          then workspace (is_archived current) (is_archived current && a.admin)
                              (page_view a page task)
                          else nothing)))))

  pub screen : Route → (token : Text) → (me : Option Doc) → Console Err → Screen
  unfolding current_access current_project project_screen
  screen route token none s = login
  screen (work invalid) token (some me) s =
      if is_empty token then login else (if invalid then invalid_link [] else my_work)
  screen (project id page task true) token (some me) s =
      if is_empty token then login else invalid_link id
  screen (project id page task false) token (some me) s =
      if is_empty token
      then login
      else project_screen (current_access me s) task page (current_project s) s

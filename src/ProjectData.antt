-- ===== src/ProjectData.antt =====
-- web/src/app/useProjectData.ts: the project that is shown and its data. The hook's state, its refs
-- and the requests on their way are one record. A request and the answer to it are two steps, and
-- the effect that follows a change of the project or of the user is part of the step that makes it.
pub mod Steps
pub mod Merge
pub mod Sorted
use accp.Prelude.{
  ℕ, zero, suc, Bool, true, false, not, ◌&&◌, ◌||◌, List, [], ◌∷◌, ◌++◌, map, Option, none, some,
  ◌==◌, if◌then◌else◌, find?, any, take,
}
use accp.Text.{Text, codes, text_eq, is_empty}
use accp.Json.{Json}
use accp.Assoc.{insert}
use accp.Api.{or_else}
use accp.Routing.{Route, project, work, PageId}

-- `Doc`: its id, what `String` gives for its `updated_at`, and the other fields.
pub record Doc : Type 0 where
  pub id : Text
  pub updated_at : Text
  pub fields : Json

pub record Membership : Type 0 where
  pub id : Text
  pub organization_id : Text
  pub project_id : Text
  pub display_name : Text
  pub roles : List Text
  pub membership_active : Option Bool
  pub account_active : Option Bool
  pub active : Bool
  pub version : ℕ

pub record Workbench : Type 0 where
  pub checked_at : Option Text
  pub mine : ℕ
  pub review : ℕ
  pub attention : ℕ
  pub approvals : ℕ
  pub action_tasks : List Doc
  pub recent_tasks : List Doc

abbrev pub empty_workbench : Workbench
empty_workbench = record {
  checked_at = none;
  mine = 0;
  review = 0;
  attention = 0;
  approvals = 0;
  action_tasks = [];
  recent_tasks = [];
}

pub record Content : Type 0 where
  pub members : List Membership
  pub tasks : List Doc
  pub workbench : Workbench
  pub contexts : List Doc
  pub artifacts : List Doc
  pub approvals : List Doc
  pub tools : List Doc

abbrev pub empty_content : Content
empty_content = record {
  members = [];
  tasks = [];
  workbench = empty_workbench;
  contexts = [];
  artifacts = [];
  approvals = [];
  tools = [];
}

-- What a request is for: all data of the project, as `me` may see them, or the changes since a time.
pub data Kind : Type 0 where
  full : (me : Text) → Kind
  changes : (since : Text) → Kind

pub record Request : Type 0 where
  pub generation : ℕ
  pub project_id : Text
  pub kind : Kind

-- `String.localeCompare`, as the test that the first text does not come after the second
module _ (le : Text → Text → Bool) where
  -- One element put into a list that is sorted by `updated_at`, the latest first, behind its equals.
  pub insert_sorted : Doc → List Doc → List Doc
  insert_sorted d [] = d ∷ []
  insert_sorted d (e ∷ es) =
      let rest = insert_sorted d es in if le d.updated_at e.updated_at then e ∷ rest else d ∷ e ∷ es

  -- `sort`, which is stable; `sorted` is what it has sorted.
  pub sort : List Doc → List Doc → List Doc
  unfolding insert_sorted
  sort [] sorted = sorted
  sort (d ∷ ds) sorted = sort ds (insert_sorted d sorted)

-- The tasks set in a `Map` by their ids, one after the other.
pub set_all : List Doc → List (Text × Doc) → List (Text × Doc)
unfolding insert
set_all [] m = m
set_all (d ∷ ds) m = set_all ds (insert d.id d m)

module _ (le : Text → Text → Bool) where
  -- the tasks behind an answer with changes
  pub merge_tasks : (changed current : List Doc) → List Doc
  unfolding set_all sort
  merge_tasks [] current = current
  merge_tasks (d ∷ ds) current =
      take 50
        (sort le (map (λ (entry : Text × Doc). entry.1) (set_all (d ∷ ds) (set_all current []))) [])

module _ (Err : Type 0) where
  -- The answer to a full request has what the server lists as approvals, which are asked for only
  -- if the user reviews. `thrown` stands for a failure of any of the calls.
  pub data Answer : Type 0 where
    all_data : Content → Answer
    changed_data : List Doc → Workbench → Answer
    thrown : Err → Answer

  -- `asked` holds the requests on their way, in the order in which they were made.
  pub record Console : Type 0 where
    pub projects : List Doc
    pub project_id : Text
    pub data_project_id : Text
    pub content : Content
    pub error : Option Err
    pub loaded : Bool
    pub updated : Text
    pub project_unavailable : Bool
    pub refresh_generation : ℕ
    pub last_task_check : Text
    pub me : Option Text
    pub asked : List Request

  abbrev pub ask : (project_id : Text) → Option Text → (Text → Kind) → Console → Console
  ask project_id none kind s = s
  ask project_id (some me) kind s = record s {
    asked =
        s.asked
        ++ record { generation = s.refresh_generation; project_id = project_id; kind = kind me }
          ∷ [];
  }

  -- `refresh`, up to its first request, as the render made it whose project and user these are: who
  -- has waited for something still calls that one, though another project may be selected by now.
  abbrev pub refresh_as : (project_id : Text) → (me : Option Text) → Console → Console
  refresh_as project_id me s =
      let next = record s { refresh_generation = suc s.refresh_generation } in
      if is_empty project_id then next else ask project_id me full next

  -- the `refresh` of the render that there is
  pub refresh : Console → Console
  refresh s = refresh_as s.project_id s.me s

  abbrev pub ask_changes : (back : Text → Text) → Option Text → Console → Console
  ask_changes back none s = s
  ask_changes back (some me) s =
      ask s.project_id (some me) (λ me. changes (back s.last_task_check))
        (record s { refresh_generation = suc s.refresh_generation })

  -- `refreshChanges`, up to its requests; `back` takes a second from a time.
  pub refresh_changes : (back : Text → Text) → Console → Console
  refresh_changes back s =
      if is_empty s.project_id || is_empty s.last_task_check then s else ask_changes back s.me s

  pub roles_of : Text → List Membership → List Text
  roles_of me members = elim (find? (λ m. text_eq m.id me) members) [ none ↦ [] | some m ↦ m.roles ]

  pub is_reviewer : List Text → Bool
  is_reviewer roles =
      any (λ r. text_eq r (codes "REVIEWER")) roles || any (λ r. text_eq r (codes "ADMIN")) roles

  -- `refresh`, from its last answer on
  pub end_refresh : Request → (me : Text) → Content → (now : Text) → Console → Console
  unfolding roles_of is_reviewer
  end_refresh r me answer now s =
      if r.generation == s.refresh_generation
      then record s {
        content = record answer {
          approvals = if is_reviewer (roles_of me answer.members) then answer.approvals else [];
        };
        last_task_check = or_else answer.workbench.checked_at now;
        data_project_id = r.project_id;
        error = none;
        loaded = true;
        updated = now;
      }
      else s

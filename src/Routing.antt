-- ===== src/Routing.antt =====
-- web/src/routing.ts: the routes of the console.
pub mod RoundTrip
mod Tests
use accp.Prelude.{
  Bool, true, false, not, ◌&&◌, ◌||◌, List, [], ◌∷◌, ◌++◌, Option, none, some, ◌==◌, if◌then◌else◌,
  find?, filter,
}
use accp.Text.{Text, codes, text_eq, is_empty, split}
use accp.Assoc.{lookup}

-- `pages`
pub data PageId : Type 0 where
  overview : PageId
  tasks : PageId
  contexts : PageId
  artifacts : PageId
  approvals : PageId
  agents : PageId
  tools : PageId
  members : PageId
  audit : PageId
  management : PageId
  operations : PageId
  help : PageId

-- A route of a project, or "my work"; `invalid` is the flag of that name, false where it is absent,
-- and "" stands for no project.
pub data Route : Type 0 where
  project : (project_id : Text) → PageId → (task_id : Option Text) → (invalid : Bool) → Route
  work : (invalid : Bool) → Route

-- `pages`, in their order
abbrev pub pages : List PageId
pages =
    overview ∷ tasks ∷ contexts ∷ artifacts ∷ approvals ∷ agents ∷ tools ∷ members ∷ audit
    ∷ management ∷ operations ∷ help ∷ []

abbrev pub page_text : PageId → Text
page_text overview = codes "overview"
page_text tasks = codes "tasks"
page_text contexts = codes "contexts"
page_text artifacts = codes "artifacts"
page_text approvals = codes "approvals"
page_text agents = codes "agents"
page_text tools = codes "tools"
page_text members = codes "members"
page_text audit = codes "audit"
page_text management = codes "management"
page_text operations = codes "operations"
page_text help = codes "help"

-- `pages.find(…)`
pub page_of : Text → Option PageId
page_of part = find? (λ page. text_eq (page_text page) part) pages

abbrev pub is_tasks : PageId → Bool
is_tasks tasks = true
is_tasks _ = false

-- Up to the first "?" or "#".
pub before_query : Text → Text
before_query [] = []
before_query (c ∷ s) = let rest = before_query s in if c == 63 || c == 35 then [] else c ∷ rest

pub path_only : Text → Text
unfolding before_query
path_only pathname = if is_empty (before_query pathname) then codes "/" else before_query pathname

abbrev pub home : Route
home = project [] overview none false

-- the text, or ""
abbrev pub decoded : Option Text → Text
decoded none = []
decoded (some s) = s

-- `decode` is `decodeURIComponent`, with `none` where it throws.
module _ (decode : Text → Option Text) where
  abbrev pub segment : Text → Text
  segment value = decoded (decode value)

  pub read_task : (id : Text) → PageId → List Text → Route
  read_task id page [] = project id page none false
  read_task id page (part ∷ []) =
      if is_tasks page
      then (if is_empty (segment part)
          then project id page none true
          else project id page (some (segment part)) false)
      else project id page none true
  read_task id page (_ ∷ _ ∷ _) = project id page none true

  abbrev pub page_route : (id : Text) → Option PageId → List Text → Route
  page_route id none rest = project id overview none true
  page_route id (some page) rest = read_task id page rest

  pub read_page : (id : Text) → List Text → Route
  unfolding page_of read_task
  read_page id [] = project id overview none false
  read_page id (part ∷ rest) = page_route id (page_of part) rest

  pub read_project : List Text → Route
  unfolding read_page
  read_project [] = home
  read_project (part ∷ rest) =
      if is_empty (segment part)
      then project [] overview none true
      else read_page (segment part) rest

  abbrev is_work : List Text → Bool
  is_work (part ∷ []) = text_eq part (codes "work")
  is_work _ = false

  pub read_parts : List Text → Route
  unfolding read_project
  read_parts [] = home
  read_parts (part ∷ rest) =
      if text_eq part (codes "me")
      then work (not (is_work rest))
      else (if text_eq part (codes "projects") then read_project rest else home)

  pub read_route : Text → Route
  unfolding path_only read_parts
  read_route pathname =
      read_parts (filter (λ part. not (is_empty part)) (split 47 (path_only pathname)))

-- `encode` is `encodeURIComponent`.
unfoldable pub route_path : (encode : Text → Text) → Route → Text
route_path encode (work _) = codes "/me/work"
route_path encode (project [] _ _ _) = codes "/"
route_path encode (project (c ∷ id) page none _) =
    codes "/projects/" ++ (encode (c ∷ id) ++ 47 ∷ page_text page)
route_path encode (project (c ∷ id) page (some task) _) =
    codes "/projects/"
    ++ (encode (c ∷ id)
        ++ (if not (is_empty task) && is_tasks page
            then codes "/tasks/" ++ encode task
            else 47 ∷ page_text page))

-- `readApprovalFocus`; `parse` is the constructor of `URLSearchParams`, as its list of pairs.
pub read_approval_focus : (parse : Text → List (Text × Text)) → Text → Text
unfolding lookup
read_approval_focus parse search = decoded (lookup (codes "approval") (parse search))

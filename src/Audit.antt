-- ===== src/Audit.antt =====
-- web/src/workspace/AuditRecords.tsx and web/src/workspace/reviewer.ts: the query of the audit list
-- and what the roles allow; web/src/tasks/TaskToolTimeline.tsx: the order of tool calls and the link
-- to an approval.
mod Query
use accp.Prelude.{
  Bool, true, false, ◌||◌, List, [], ◌∷◌, ◌++◌, any, Option, none, some, if◌then◌else◌, sort_into,
}
use accp.Text.{Text, codes, text_eq, is_empty}
use accp.Routing.{project, approvals, route_path}
use accp.ProjectData.{Doc}
use accp.TaskQuery.{Params, set_filled, or_blank}

pub record AuditFilters : Type 0 where
  pub actor : Text
  pub task : Text
  pub action : Text
  pub from : Text
  pub to : Text
  pub project_id : Text

abbrev pub empty_audit_filters : AuditFilters
empty_audit_filters = record {
  actor = [];
  task = [];
  action = [];
  from = [];
  to = [];
  project_id = [];
}

-- The options; a limit is the text of a number that is not 0.
pub record AuditOptions : Type 0 where
  pub cursor : Option Text
  pub format : Option Text
  pub limit : Option Text

-- the parameters, with the keys of the filters in their order
abbrev pub audit_params : AuditFilters → AuditOptions → Params
audit_params filters opts = set_filled (codes "format") (or_blank opts.format) (
    set_filled (codes "cursor") (or_blank opts.cursor) (
      set_filled (codes "limit") (or_blank opts.limit) (
        set_filled (codes "project") filters.project_id (
          set_filled (codes "to") filters.to (
            set_filled (codes "from") filters.from (
              set_filled (codes "action") filters.action (
                set_filled (codes "task") filters.task
                  (set_filled (codes "actor") filters.actor []))))))))

pub audit_query : (print : Params → Text) → AuditFilters → AuditOptions → Text
audit_query print filters opts =
    let query = print (audit_params filters opts) in
    if is_empty query then [] else codes "?" ++ query

abbrev has_role : Text → List Text → Bool
has_role role roles = any (λ r. text_eq r role) roles

pub can_export_audit : List Text → Bool
can_export_audit roles = has_role (codes "ADMIN") roles

pub reviewer : List Text → Bool
reviewer roles = has_role (codes "REVIEWER") roles || has_role (codes "ADMIN") roles

-- A tool call: its id, and what `String(created_at || "")` gives.
pub record Invocation : Type 0 where
  pub id : Text
  pub created_at : Text

-- `less` is `<` on strings; the comparator never gives 0.
abbrev pub earlier : (less : Text → Text → Bool) → Invocation → Invocation → Bool
earlier less a b =
    if text_eq a.created_at b.created_at then less a.id b.id else less a.created_at b.created_at

pub sort_invocations : (less : Text → Text → Bool) → List Invocation → List Invocation
sort_invocations less items = sort_into (earlier less) items []

pub approval_link : (encode : Text → Text) → (project_id approval_id : Text) → Text
approval_link encode id approval_id =
    route_path encode (project id approvals none false)
    ++ (codes "?approval=" ++ encode approval_id)

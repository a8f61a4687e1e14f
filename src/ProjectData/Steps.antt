-- ===== src/ProjectData/Steps.antt =====
-- web/src/app/useProjectData.ts: the answers, the effects, and the machine of all steps.
pub mod Requests
pub mod Fresh
pub mod Stale
pub mod Late
mod Tests
use accp.Prelude.{
  ℕ, zero, suc, Bool, true, false, not, ◌&&◌, ◌||◌, List, [], ◌∷◌, ◌++◌, map, Option, none, some,
  ◌==◌, if◌then◌else◌, find?, any, get?, delete_at,
}
use accp.Text.{Text, codes, text_eq, is_empty}
use accp.Api.{or_else}
use accp.Routing.{Route, project, work, PageId}
use accp.ProjectData.{
  Doc, Membership, Workbench, Content, empty_content, Kind, full, changes, Request, merge_tasks,
  Answer, all_data, changed_data, thrown, Console, ask, refresh_as, refresh, refresh_changes,
  end_refresh,
}

abbrev pub has_id : Text → Doc → Bool
has_id id d = text_eq d.id id

-- `list[0]?.id || ""`
abbrev pub first_id : List Doc → Text
first_id [] = []
first_id (d ∷ _) = d.id

abbrev id_or : Option Doc → Text → Text
id_or none d = d
id_or (some p) d = or_else (some p.id) d

-- `list.find(…)?.id || list[0]?.id || ""`
abbrev pub chosen : List Doc → Text → Text
chosen list id = id_or (find? (has_id id) list) (first_id list)

module _ (Err : Type 0) (le : Text → Text → Bool) (back : Text → Text) where
  -- `refreshChanges`, from its last answer on
  pub end_changes : Request → List Doc → Workbench → (now : Text) → Console Err → Console Err
  end_changes r changed workbench now s =
      let checked = or_else workbench.checked_at now in
      if r.generation == s.refresh_generation
      then record s {
        content = record s.content {
          workbench = workbench;
          tasks = merge_tasks le changed s.content.tasks;
        };
        last_task_check = checked;
        updated = checked;
      }
      else s

  -- The answer to a request. A failure is passed to `setError`, as the effect does it. An answer that
  -- does not fit its request cannot come, and changes nothing.
  pub answer : Kind → Request → Answer Err → (now : Text) → Console Err → Console Err
  unfolding end_changes
  answer kind r (thrown e) now s = record s { error = some e }
  answer (full me) r (all_data c) now s = end_refresh Err r me c now s
  answer (changes since) r (changed_data ds w) now s = end_changes r ds w now s
  answer _ r _ now s = s

  abbrev pub answered : Option Request → ℕ → Answer Err → (now : Text) → Console Err → Console Err
  answered none k a now s = s
  answered (some r) k a now s = answer r.kind r a now (record s { asked = delete_at k s.asked })

  -- The effect on `refresh` and `refreshChanges`: its cleanup, and its next run.
  pub restart : Console Err → Console Err
  restart s = refresh Err (record s {
    refresh_generation = suc s.refresh_generation;
    loaded = false;
    last_task_check = [];
  })

  -- That effect runs again where the project is another one.
  abbrev pub commit : Console Err → Console Err → Console Err
  commit before s = if text_eq before.project_id s.project_id then s else restart s

  -- The effect on the route, for the list of projects, with what it navigates to.
  pub route_among : Route → List Doc → Console Err → Option Route × Console Err
  route_among (work true) list s = (none, s)
  route_among (project _ _ _ true) list s = (none, s)
  route_among (work false) [] s = (none, s)
  route_among (project _ _ _ false) [] s = (none, s)
  route_among (work false) (p ∷ _) s = (
    none,
    record s {
      project_unavailable = false;
      project_id = if is_empty s.project_id then p.id else s.project_id;
    },
  )
  route_among (project [] _ _ false) (p ∷ _) s = (
    if is_empty s.project_id then some (project p.id PageId.overview none false) else none,
    record s {
      project_unavailable = false;
      project_id = if is_empty s.project_id then p.id else s.project_id;
    },
  )
  route_among (project (c ∷ id) _ _ false) (p ∷ ps) s =
      let known = any (has_id (c ∷ id)) (p ∷ ps) in
      (
        none,
        record s {
          project_unavailable = not known;
          project_id = if known then c ∷ id else s.project_id;
        },
      )

  pub on_route : Route → Console Err → Option Route × Console Err
  unfolding route_among
  on_route route s = route_among route s.projects s

  -- The first effect, once the user and the projects are there; `requested` is the route of the
  -- address.
  pub start : Route → (me : Text) → List Doc → Console Err → Option Route × Console Err
  start requested me list s =
      let s' = record s { me = some me; projects = list } in
      elim requested [
        | work _ ↦ (none, record s' { project_unavailable = false; project_id = first_id list })
        | project id page task invalid ↦
            if invalid
            then (none, record s' { project_unavailable = false; project_id = chosen list id })
            else (if not (is_empty id) && not (any (has_id id) list)
                then (
                  none,
                  record s' { project_unavailable = true; project_id = []; loaded = true },
                )
                else (
                  if is_empty (chosen list id) || text_eq (chosen list id) id
                      then none
                      else some (project (chosen list id) PageId.overview none false),
                  record s' { project_unavailable = false; project_id = chosen list id },
                ))
      ]

  -- `reloadProjects`, from the list on; `of_id` and `of_me` are the project and the user of the
  -- render that it began in.
  pub reload_projects :
      (of_id : Text)
      → (of_me : Option Text) → Option Text
      → List Doc
      → Console Err
      → Option Route × Console Err
  reload_projects of_id of_me id list s =
      let s' = record s { projects = list } in
      if is_empty (or_else id []) then (none, refresh_as Err of_id of_me s') else (
        some (project (or_else id []) PageId.management none false),
        record s' { project_unavailable = false; project_id = or_else id [] },
      )

  pub reset_project_data : Console Err → Console Err
  reset_project_data s = record s {
    refresh_generation = suc s.refresh_generation;
    loaded = false;
    content = empty_content;
  }

  -- What happens to the hook. A refresh is the one of any render. `answers k` answers the request at place `k` of those on their way.
  pub data Event : Type 0 where
    starts : Route → (me : Text) → List Doc → Event
    routes : Route → Event
    selects : Text → Event
    reloads : (of_id : Text) → (of_me : Option Text) → Option Text → List Doc → Event
    refreshes : (of_id : Text) → (of_me : Option Text) → Event
    polls : Event
    answers : ℕ → Answer Err → (now : Text) → Event
    signs_out : Event

  -- The user's object is new after `start` and gone after signing out, so the effect runs again.
  pub step : Event → Console Err → Console Err
  unfolding answer restart on_route start reload_projects reset_project_data
  step (starts requested me list) s = restart (start requested me list s).1
  step (routes route) s = commit s (on_route route s).1
  step (selects id) s = commit s (record s { project_id = id })
  step (reloads of_id of_me id list) s = commit s (reload_projects of_id of_me id list s).1
  step (refreshes of_id of_me) s = refresh_as Err of_id of_me s
  step polls s = refresh_changes Err back s
  step (answers k a now) s = answered (get? k s.asked) k a now s
  step signs_out s = restart (record (reset_project_data s) { me = none })

  pub run : List Event → Console Err → Console Err
  unfolding step
  run [] s = s
  run (e ∷ es) s = run es (step e s)

-- the hook when it is first used
abbrev pub initial : (Err : Type 0) → Console Err
initial Err = record {
  projects = [];
  project_id = [];
  data_project_id = [];
  content = empty_content;
  error = none;
  loaded = false;
  updated = [];
  project_unavailable = false;
  refresh_generation = 0;
  last_task_check = [];
  me = none;
  asked = [];
}

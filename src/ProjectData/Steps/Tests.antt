-- ===== src/ProjectData/Steps/Tests.antt =====
-- web/src/app/useProjectData.ts at concrete inputs.
use accp.Prelude.{
  ℕ, ◌≤◌, ◌≡◌, refl, Bool, true, false, List, [], ◌∷◌, some, none, arith, length, leb, find?,
}
use accp.Text.{Text, codes, text_eq}
use accp.Json.{null}
use accp.Assoc.{insert}
use accp.Routing.{project, PageId}
use accp.ProjectData.{
  Doc, empty_workbench, empty_content, full, Request, all_data, Console, refresh_as, refresh,
  refresh_changes, end_refresh, insert_sorted, sort, set_all, merge_tasks,
}
use accp.ProjectData.Merge.{or_option, latest, of_id, find-merge_tasks}
use accp.ProjectData.Sorted.{IsLatestFirst, merge_tasks-IsLatestFirst}
use accp.ProjectData.Steps.{Event, run, initial, start, restart, answer, end_changes}
use accp.ProjectData.Steps.Requests.{IsValid}
use accp.ProjectData.Steps.Fresh.{AreCurrent, run-initial-IsValid}
use accp.ProjectData.Steps.Late.{late_request, behind_late, refresh_as-late}
use accp.ProjectData.Steps.Stale.{full_request, changes_request, refresh-refresh_changes-dropped}

-- An order of texts for these tests, by length.
abbrev shorter : Text → Text → Bool
shorter a b = leb (length a) (length b)

shorter_total : (a b : Text) → shorter a b ≡ false → shorter b a ≡ true
shorter_total a b h = ground arith

shorter_trans : (a b c : Text) → shorter a b ≡ true → shorter b c ≡ true → shorter a c ≡ true
shorter_trans a b c h k = ground arith

abbrev same_time : Text → Text
same_time t = t

abbrev task : ℕ → Text → Doc
task n at = record { id = n ∷ []; updated_at = at; fields = null }

abbrev old_tasks : List Doc
old_tasks = task 97 (codes "11") ∷ task 98 (codes "1") ∷ []

abbrev new_tasks : List Doc
new_tasks = task 98 (codes "111") ∷ task 99 (codes "1111") ∷ []

merge_tasks_run :
    merge_tasks shorter new_tasks old_tasks
    ≡ task 99 (codes "1111") ∷ task 98 (codes "111") ∷ task 97 (codes "11") ∷ []
unfolding merge_tasks set_all insert sort insert_sorted text_eq
merge_tasks_run = refl

find-merge_tasks_example :
    find? (of_id (codes "b")) (merge_tasks shorter new_tasks old_tasks)
    ≡ or_option (latest (codes "b") new_tasks) (latest (codes "b") old_tasks)
find-merge_tasks_example =
    find-merge_tasks shorter (codes "b") (task 98 (codes "111")) (task 99 (codes "1111") ∷ [])
      old_tasks (omega arith)

merge_tasks-IsLatestFirst_example :
    IsLatestFirst shorter (merge_tasks shorter new_tasks old_tasks)
    × (length (merge_tasks shorter new_tasks old_tasks) ≤ 50)
merge_tasks-IsLatestFirst_example =
    merge_tasks-IsLatestFirst shorter shorter_total shorter_trans (task 98 (codes "111"))
      (task 99 (codes "1111") ∷ []) old_tasks

abbrev project_docs : List Doc
project_docs = task 112 [] ∷ task 113 [] ∷ []

-- The console opens a project, its data are asked for, another project is selected before they come.
abbrev session_events : List (Event Text shorter same_time)
session_events =
    Event.starts (project (codes "p") PageId.overview none false) (codes "me") project_docs
    ∷ Event.selects (codes "q")
    ∷ Event.answers 0 (all_data empty_content) (codes "now")
    ∷ Event.answers 0 (all_data empty_content) (codes "later")
    ∷ Event.polls
    ∷ []

run-initial-IsValid_example : IsValid (run Text shorter same_time session_events (initial Text))
unfolding AreCurrent
run-initial-IsValid_example =
    run-initial-IsValid shorter same_time session_events (tt, (tt, (tt, (tt, (tt, tt)))))

-- A form of the project "p" refreshes what it has changed when "q" is selected already and asked for:
-- the data of "p" are loaded, and what "q" was asked for is dropped.
abbrev late_refresh : Console Text
late_refresh =
    run Text shorter same_time
      (Event.starts (project (codes "p") PageId.overview none false) (codes "me") project_docs
        ∷ Event.selects (codes "q")
        ∷ Event.refreshes (codes "p") (some (codes "me"))
        ∷ Event.answers 2 (all_data empty_content) (codes "now")
        ∷ Event.answers 1 (all_data empty_content) (codes "later")
        ∷ [])
      (initial Text)

late_refresh_selected : late_refresh.project_id ≡ codes "q"
unfolding run start restart refresh answer end_refresh text_eq
late_refresh_selected = refl

late_refresh_shown : late_refresh.data_project_id ≡ codes "p"
unfolding run start restart refresh answer end_refresh text_eq
late_refresh_shown = refl

late_refresh_loaded : late_refresh.loaded ≡ true
unfolding run start restart refresh answer end_refresh text_eq
late_refresh_loaded = refl

abbrev shown_console : Console Text
shown_console = record (initial Text) {
  project_id = codes "p";
  data_project_id = codes "p";
  content = record empty_content { tasks = old_tasks };
  loaded = true;
  refresh_generation = 4;
  last_task_check = codes "now";
  me = some (codes "me");
}

abbrev old_request : Request
old_request = record { generation = 2; project_id = codes "q"; kind = full (codes "me") }

-- "q" is selected and asked for, and a form of "p" refreshes.
abbrev left_console : Console Text
left_console = record shown_console { project_id = codes "q"; loaded = false }

refresh_as-late_example :
    ((refresh_as Text (codes "p") (some (codes "me")) left_console).asked
      ≡ late_request (codes "p") (codes "me") left_console ∷ [])
    × ((behind_late (codes "p") (codes "me") empty_content (codes "now") left_console).loaded
        ≡ true)
    × ((behind_late
          (codes "p")
          (codes "me")
          empty_content
          (codes "now")
          left_console).data_project_id
        ≡ codes "p")
    × ((behind_late (codes "p") (codes "me") empty_content (codes "now") left_console).content.tasks
        ≡ [])
    × ((behind_late (codes "p") (codes "me") empty_content (codes "now") left_console).project_id
        ≡ codes "q")
    × (answer Text shorter same_time old_request.kind old_request
          (all_data empty_content)
          (codes "x")
          (behind_late (codes "p") (codes "me") empty_content (codes "now") left_console)
        ≡ record (behind_late (codes "p") (codes "me") empty_content (codes "now") left_console) {
          error =
              (behind_late (codes "p") (codes "me") empty_content (codes "now") left_console).error;
        })
refresh_as-late_example =
    refresh_as-late shorter same_time left_console (codes "p") (codes "me") empty_content
      (codes "now") old_request (all_data empty_content) (codes "x") refl (omega arith)

refresh-refresh_changes-dropped_example :
    (let t = refresh_changes Text same_time (refresh Text shown_console) in
      (t.asked
        ≡ full_request shorter same_time (codes "me") shown_console
          ∷ changes_request shorter same_time shown_console
          ∷ [])
      × ((end_changes Text shorter same_time
            (changes_request shorter same_time shown_console)
            new_tasks
            empty_workbench
            (codes "z")
            (end_refresh Text
              (full_request shorter same_time (codes "me") shown_console)
              (codes "me")
              empty_content
              (codes "y")
              t)).content
          ≡ record empty_content {
            workbench = empty_workbench;
            tasks = merge_tasks shorter new_tasks old_tasks;
          }))
refresh-refresh_changes-dropped_example =
    refresh-refresh_changes-dropped shorter same_time shown_console (codes "me") empty_content
      new_tasks empty_workbench (codes "y") (codes "z") refl refl refl

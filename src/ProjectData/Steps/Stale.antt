-- ===== src/ProjectData/Steps/Stale.antt =====
-- Answers to requests that another has superseded.
use accp.Prelude.{ℕ, suc, ◌<◌, ◌≡◌, refl, Bool, false, List, [], ◌∷◌, ◌++◌, Option, some, arith}
use accp.Text.{Text, is_empty}
use accp.ProjectData.{
  Doc, Workbench, Content, Kind, full, changes, Request, Answer, all_data, changed_data, thrown,
  Console, refresh, refresh_changes, end_refresh, merge_tasks,
}
use accp.ProjectData.Steps.{end_changes, answer}

module _ {Err : Type 0} where
  -- The error that is shown behind an answer.
  abbrev pub error_after : Answer Err → Option Err → Option Err
  error_after (thrown e) before = some e
  error_after (all_data c) before = before
  error_after (changed_data ds w) before = before

module _ {Err : Type 0} (le : Text → Text → Bool) (back : Text → Text) where
  abbrev generation : Console Err → ℕ
  generation s = s.refresh_generation

  pub answer_old :
      (kind : Kind) (r : Request) (a : Answer Err) (now : Text) (s : Console Err)
      → r.generation < generation s
      → answer Err le back kind r a now s ≡ record s { error = error_after a s.error }
  unfolding answer end_refresh end_changes
  answer_old (full me) r (thrown e) now s h = refl
  answer_old (changes since) r (thrown e) now s h = refl
  answer_old (full me) r (changed_data ds w) now s h = refl
  answer_old (changes since) r (all_data c) now s h = refl
  answer_old (full me) r (all_data c) now s h = ground arith
  answer_old (changes since) r (changed_data ds w) now s h = ground arith

  abbrev pub full_request : (me : Text) → Console Err → Request
  full_request me s = record {
    generation = suc s.refresh_generation;
    project_id = s.project_id;
    kind = full me;
  }

  abbrev pub changes_request : Console Err → Request
  changes_request s = record {
    generation = suc (suc s.refresh_generation);
    project_id = s.project_id;
    kind = changes (back s.last_task_check);
  }

  -- A poll for changes begins while a refresh waits for its answers. Both are answered, the refresh
  -- first: what it brings is dropped, and behind both answers all but the tasks and the workbench is
  -- what it was before.
  pub refresh-refresh_changes-dropped :
      (s : Console Err) (me : Text) (c : Content) (changed : List Doc) (w : Workbench)
      (now now' : Text)
      → s.me ≡ some me
      → is_empty s.project_id ≡ false
      → is_empty s.last_task_check ≡ false
      → (let t = refresh_changes Err back (refresh Err s) in
          (t.asked ≡ (s.asked ++ full_request me s ∷ []) ++ changes_request s ∷ [])
          × ((end_changes Err le back
                (changes_request s)
                changed
                w
                now'
                (end_refresh Err (full_request me s) me c now t)).content
              ≡ record s.content { workbench = w; tasks = merge_tasks le changed s.content.tasks }))
  unfolding refresh refresh_changes end_refresh end_changes
  refresh-refresh_changes-dropped s me c changed w now now' who selected checked =
      rw (selected, who, checked, selected) (refl, ground arith)

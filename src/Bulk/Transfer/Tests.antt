-- ===== src/Bulk/Transfer/Tests.antt =====
-- web/src/tasks/BulkTransfer.tsx at a selection of two tasks.
use mathlib.Core.List.{Perm}
use accp.Prelude.{ℕ, suc, ◌≡◌, true, false, [], ◌∷◌, ◌++◌, map, Option, none, some, if◌then◌else◌}
use accp.Text.{Text, codes, text_eq}
use accp.Json.{obj, num, member, end}
use accp.ProjectData.{Doc}
use accp.TaskQuery.{default_task_list_query}
use accp.TaskList.{TaskList, page}
use accp.TaskList.Handlers.{on_applied}
use accp.TaskList.Steps.{mounting}
use accp.Bulk.Laws.{failures, successes}
use accp.Bulk.Transfer.{Order, Transfer, calls_of, applied}
use accp.Bulk.Transfer.Laws.{outcomes, on_applied-applied}

abbrev task : Text → Doc
task id = record {
  id = id;
  updated_at = [];
  fields = obj (member (codes "version") (num (codes "3")) end);
}

abbrev transfer : Transfer ℕ ℕ
transfer = record {
  snapshot = task (codes "a") ∷ task (codes "b") ∷ [];
  owner = codes "u2";
  reason = codes " away ";
  running = true;
  results = none;
}

-- Counts the calls, and refuses one task.
abbrev call : Text → Order → ℕ → Option ℕ × ℕ
call id order n = (if text_eq id (codes "b") then some 409 else none, suc n)

abbrev list : TaskList ℕ
list = mounting ℕ (codes "u1") (λ ps. page [] none) (default_task_list_query, false)

on_applied-applied_example :
    let results = (calls_of ℕ ℕ call transfer 0).0 in
    let (succeeded, failed) = (applied ℕ ℕ results transfer).1 in
    let shown = on_applied ℕ failed list in
    (shown.selected
      ≡ map (λ (f : Text × Option ℕ). f.0) (failures ℕ ℕ (outcomes ℕ ℕ call transfer 0)))
    × (succeeded ≡ successes ℕ ℕ (outcomes ℕ ℕ call transfer 0))
    × Perm (succeeded ++ failed) (map (λ (d : Doc). d.id) transfer.snapshot)
    × (shown.loading ≡ true)
on_applied-applied_example = on_applied-applied ℕ ℕ call transfer 0 list

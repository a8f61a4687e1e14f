-- ===== src/Bulk/Transfer/Laws.antt =====
-- web/src/tasks/BulkTransfer.tsx: which tasks stay selected behind a transfer.
use mathlib.Core.List.{Perm}
use accp.Prelude.{◌≡◌, refl, ap, true, List, ◌++◌, map, Option}
use accp.Text.{Text}
use accp.ProjectData.{Doc}
use accp.Bulk.{Summary, run_bulk, bulk_summary}
use accp.Bulk.Laws.{calls, failures, successes, bulk_summary-run_bulk, bulk_summary-run_bulk-perm}
use accp.Bulk.Transfer.{Order, Transfer, order_of, calls_of, applied}
use accp.TaskList.{TaskList, start_first, restart}
use accp.TaskList.Handlers.{on_applied}

module _ (Err State : Type 0) where
  -- The calls of a transfer, each with what it gave, in the order of the selection.
  abbrev pub outcomes :
      (call : Text → Order → State → Option Err × State)
      → Transfer Err State
      → State
      → List (Text × Option Err)
  outcomes call s state =
      calls Err State (λ id. call id (order_of Err State s id)) (map (λ (d : Doc). d.id) s.snapshot)
        state

  abbrev ids_of : List (Text × Option Err) → List Text
  ids_of fs = map (λ (f : Text × Option Err). f.0) fs

  -- Behind a transfer exactly the tasks whose calls gave an error stay selected in the list, in the
  -- order in which they were called; each task of the selection was called once, and is among those
  -- that succeeded or those that failed, and the list is asked for again from its first page.
  pub on_applied-applied :
      (call : Text → Order → State → Option Err × State) (s : Transfer Err State) (state : State)
      (list : TaskList Err)
      → let results = (calls_of Err State call s state).0 in
        let (succeeded, failed) = (applied Err State results s).1 in
        let shown = on_applied Err failed list in
        (shown.selected ≡ ids_of (failures Err State (outcomes call s state)))
        × (succeeded ≡ successes Err State (outcomes call s state))
        × Perm (succeeded ++ failed) (map (λ (d : Doc). d.id) s.snapshot)
        × (shown.loading ≡ true)
  unfolding on_applied start_first restart calls_of applied
  on_applied-applied call s state list = (
    ap (λ (m : Summary Err State). ids_of m.failed) told,
    ap (λ (m : Summary Err State). m.succeeded) told,
    bulk_summary-run_bulk-perm Err State ids perform state,
    refl,
  )
    where
      ids : List Text
      ids = map (λ (d : Doc). d.id) s.snapshot

      perform : Text → State → Option Err × State
      perform id = call id (order_of Err State s id)

      told : bulk_summary Err State (run_bulk Err State ids perform state).0 ≡ record {
        succeeded = successes Err State (outcomes call s state);
        failed = failures Err State (outcomes call s state);
      }
      told = bulk_summary-run_bulk Err State ids perform state

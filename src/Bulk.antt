-- ===== src/Bulk.antt =====
-- web/src/tasks/bulkActions.ts: one endpoint call for each selected task, in turn. What a call does
-- is a function on the state of the server, and an exception is the error that it gives.
pub mod Laws
pub mod Transfer
mod Tests
use accp.Prelude.{Bool, true, false, not, List, [], ◌∷◌, ◌++◌, map, Option, none, some, filter}
use accp.Text.{Text}

module _ (Err State : Type 0) where
  pub record BulkResult : Type 0 where
    pub id : Text
    pub is_ok : Bool
    pub error : Option Err

  abbrev pub outcome : Text → Option Err → BulkResult
  outcome id none = record { id = id; is_ok = true; error = none }
  outcome id (some e) = record { id = id; is_ok = false; error = some e }

  -- the loop of `runBulk`
  pub run_from :
      (perform : Text → State → Option Err × State)
      → List Text
      → List BulkResult × State
      → List BulkResult × State
  run_from perform [] s = s
  run_from perform (id ∷ ids) (results, state) =
      let (error, state') = perform id state in
      run_from perform ids (results ++ outcome id error ∷ [], state')

  pub run_bulk :
      List Text → (perform : Text → State → Option Err × State) → State → List BulkResult × State
  unfolding run_from
  run_bulk ids perform state = run_from perform ids ([], state)

  pub record Summary : Type 0 where
    pub succeeded : List Text
    pub failed : List (Text × Option Err)

  pub bulk_summary : List BulkResult → Summary
  bulk_summary results = record {
    succeeded = map (λ r. r.id) (filter (λ r. r.is_ok) results);
    failed = map (λ r. (r.id, r.error)) (filter (λ r. not r.is_ok) results);
  }

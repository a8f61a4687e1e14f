-- ===== src/Bulk/Transfer.antt =====
-- web/src/tasks/BulkTransfer.tsx: one new owner for the tasks that were selected. A call of the
-- endpoint is a function on the state of the server.
mod Laws
mod Tests
use accp.Prelude.{
  Bool, true, false, not, ◌&&◌, ◌||◌, List, [], ◌∷◌, map, Option, none, some, if◌then◌else◌,
}
use accp.Text.{Text, codes, is_empty, trim}
use accp.Json.{Json, obj, property}
use accp.Assoc.{lookup, insert}
use accp.ProjectData.{Doc}
use accp.Bulk.{BulkResult, Summary, run_bulk, bulk_summary}

-- The body of a transfer, with the version that it is made at.
pub record Order : Type 0 where
  pub owner_user_id : Text
  pub reason : Text
  pub version : Option Json

-- The loop that fills `byId`.
pub fill : List Doc → List (Text × Doc) → List (Text × Doc)
unfolding insert
fill [] m = m
fill (d ∷ ds) m = fill ds (insert d.id d m)

abbrev version_in : Option Doc → Option Json
version_in none = none
version_in (some d) = elim d.fields [ obj ms ↦ property (codes "version") ms | _ ↦ none ]

-- `byId.get(id)?.version`
pub version_of : List Doc → Text → Option Json
unfolding fill lookup
version_of snapshot id = version_in (lookup id (fill snapshot []))

module _ (Err State : Type 0) where
  pub record Transfer : Type 0 where
    pub snapshot : List Doc
    pub owner : Text
    pub reason : Text
    pub running : Bool
    pub results : Option (List (BulkResult Err State))

  pub new_transfer : (tasks : List Doc) → Transfer
  new_transfer tasks = record {
    snapshot = tasks;
    owner = [];
    reason = [];
    running = false;
    results = none;
  }

  -- Whether `confirm` goes on.
  pub is_ready : Transfer → Bool
  is_ready s = not (is_empty s.owner || is_empty (trim s.reason) || s.running)

  abbrev pub order_of : Transfer → Text → Order
  order_of s id = record {
    owner_user_id = s.owner;
    reason = trim s.reason;
    version = version_of s.snapshot id;
  }

  -- `confirm`, up to its wait for the calls
  pub confirm : Transfer → Transfer
  unfolding is_ready
  confirm s = if is_ready s then record s { running = true } else s

  -- The calls of `confirm`, with what `s` was when it began.
  pub calls_of :
      (call : Text → Order → State → Option Err × State)
      → Transfer
      → State
      → List (BulkResult Err State) × State
  unfolding version_of
  calls_of call s =
      run_bulk Err State (map (λ (d : Doc). d.id) s.snapshot) (λ id. call id (order_of s id))

  -- Behind the calls: the new state, and what `onApplied` is called with.
  pub applied : List (BulkResult Err State) → Transfer → Transfer × (List Text × List Text)
  applied results s =
      let summary = bulk_summary Err State results in
      (
        record s { results = some results; running = false },
        (summary.succeeded, map (λ (f : Text × Option Err). f.0) summary.failed),
      )

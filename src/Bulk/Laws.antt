-- ===== src/Bulk/Laws.antt =====
-- What a bulk run does and reports.
use mathlib.Core.List.{Perm, perm_middle}
use mathlib.Core.List.Perm
use accp.Prelude.{
  ◌≡◌, refl, ap, sym, subst, ◌∙◌, inl, inr, List, [], ◌∷◌, ◌++◌, map, append_assoc, append-nil,
  Option, none, some, Bool-cases,
}
use accp.Text.{Text}
use accp.Bulk.{BulkResult, outcome, run_from, run_bulk, Summary, bulk_summary}

module _ (Err State : Type 0) where
  -- Each call in the state that the one before it left, with what it gave.
  pub calls : (Text → State → Option Err × State) → List Text → State → List (Text × Option Err)
  calls perform [] state = []
  calls perform (id ∷ ids) state =
      (id, (perform id state).0) ∷ calls perform ids (perform id state).1

  pub final : (Text → State → Option Err × State) → List Text → State → State
  final perform [] state = state
  final perform (id ∷ ids) state = final perform ids (perform id state).1

  abbrev pub results_of : List (Text × Option Err) → List (BulkResult Err State)
  results_of [] = []
  results_of ((id, error) ∷ rest) = outcome Err State id error ∷ results_of rest

  run_from-eq :
      (perform : Text → State → Option Err × State) (ids : List Text)
      (results : List (BulkResult Err State)) (state : State)
      → run_from Err State perform ids (results, state)
        ≡ (results ++ results_of (calls perform ids state), final perform ids state)
  unfolding run_from calls final
  run_from-eq perform [] results state = ap (λ rs. (rs, state)) (sym (append-nil results))
  run_from-eq perform (id ∷ ids) results state =
      run_from-eq perform ids _ (perform id state).1
      ∙ ap (λ rs. (rs, final perform ids (perform id state).1)) (append_assoc results _ _)

  -- Every task is called once, in the order given and in the state that the tasks before it left,
  -- failures among them included; the results stand in that order.
  pub run_bulk-eq :
      (ids : List Text) (perform : Text → State → Option Err × State) (state : State)
      → run_bulk Err State ids perform state
        ≡ (results_of (calls perform ids state), final perform ids state)
  unfolding run_bulk
  run_bulk-eq ids perform state = run_from-eq perform ids [] state

  abbrev pub all_ids : Summary Err State → List Text
  all_ids s = s.succeeded ++ map (λ (f : Text × Option Err). f.0) s.failed

  ids-perm :
      (rs : List (BulkResult Err State))
      → Perm (all_ids (bulk_summary Err State rs)) (map (λ r. r.id) rs)
  unfolding bulk_summary
  ids-perm [] = Perm.refl []
  ids-perm (r ∷ rs) = elim (Bool-cases r.is_ok) [
    | inl e ↦ rw e (Perm.cons r.id (ids-perm rs))
    | inr e ↦ rw e (Perm.trans (perm_middle _ _) (Perm.cons r.id (ids-perm rs)))
  ]

  map-id-results_of :
      (cs : List (Text × Option Err))
      → map (λ (r : BulkResult Err State). r.id) (results_of cs)
        ≡ map (λ (c : Text × Option Err). c.0) cs
  map-id-results_of [] = refl
  map-id-results_of ((id, none) ∷ cs) = ap (id ∷◌) (map-id-results_of cs)
  map-id-results_of ((id, some e) ∷ cs) = ap (id ∷◌) (map-id-results_of cs)

  map-id-calls :
      (perform : Text → State → Option Err × State) (ids : List Text) (state : State)
      → map (λ (c : Text × Option Err). c.0) (calls perform ids state) ≡ ids
  unfolding calls
  map-id-calls perform [] state = refl
  map-id-calls perform (id ∷ ids) state = ap (id ∷◌) (map-id-calls perform ids (perform id state).1)

  -- The summary of a run accounts for every selected task, and for none twice.
  pub bulk_summary-run_bulk-perm :
      (ids : List Text) (perform : Text → State → Option Err × State) (state : State)
      → Perm (all_ids (bulk_summary Err State (run_bulk Err State ids perform state).0)) ids
  bulk_summary-run_bulk-perm ids perform state = rw run_bulk-eq (
      subst (Perm (all_ids (bulk_summary Err State rs)))
        (map-id-results_of (calls perform ids state) ∙ map-id-calls perform ids state)
        (ids-perm rs))
    where
      rs : List (BulkResult Err State)
      rs = results_of (calls perform ids state)

  -- The calls that gave an error, with it, and the tasks whose calls gave none.
  abbrev pub failures : List (Text × Option Err) → List (Text × Option Err)
  failures [] = []
  failures ((id, none) ∷ cs) = failures cs
  failures ((id, some e) ∷ cs) = (id, some e) ∷ failures cs

  abbrev pub successes : List (Text × Option Err) → List Text
  successes [] = []
  successes ((id, none) ∷ cs) = id ∷ successes cs
  successes ((id, some e) ∷ cs) = successes cs

  summary-eq :
      (cs : List (Text × Option Err))
      → bulk_summary Err State (results_of cs)
        ≡ record { succeeded = successes cs; failed = failures cs }
  unfolding bulk_summary
  summary-eq [] = refl
  summary-eq ((id, none) ∷ cs) =
      ap (λ (s : Summary Err State). record s { succeeded = id ∷ s.succeeded }) (summary-eq cs)
  summary-eq ((id, some e) ∷ cs) =
      ap (λ (s : Summary Err State). record s { failed = (id, some e) ∷ s.failed }) (summary-eq cs)

  -- A run reports as failed exactly the calls that gave an error, each with its error, and as
  -- succeeded exactly the others, both in the order of the calls.
  pub bulk_summary-run_bulk :
      (ids : List Text) (perform : Text → State → Option Err × State) (state : State)
      → bulk_summary Err State (run_bulk Err State ids perform state).0 ≡ record {
        succeeded = successes (calls perform ids state);
        failed = failures (calls perform ids state);
      }
  bulk_summary-run_bulk ids perform state =
      ap (λ (s : List (BulkResult Err State) × State). bulk_summary Err State s.0)
        (run_bulk-eq ids perform state)
      ∙ summary-eq (calls perform ids state)

-- ===== src/TaskList/Steps/Settled.antt =====
-- web/src/tasks/Tasks.tsx: what the list shows when nothing is loading.
use accp.Prelude.{◌≡◌, refl, inl, Bool, true, false, List, [], ◌∷◌, none, some, get?}
use accp.Text.{Text}
use accp.TaskQuery.{TaskListQuery, Params, push, replace}
use accp.TaskList.{TaskList, first, Answer}
use accp.TaskList.Handlers.{
  on_sort_field, on_sort_order, on_header_sort, clear_filters, on_mine, on_status, on_owner,
  on_tasks_epoch, on_retry, toggle_one, toggle_all, on_applied, check_list,
}
use accp.TaskList.Steps.{Event, step, run, mounting, mount}
use accp.TaskList.Steps.Valid.{
  filters, Shown, IsBound, Held, IsPending, IsValid, run_effect-IsValid, again-IsValid,
  apply_query-IsValid, on_search-IsValid, on_escape-IsValid, on_pop_state-IsValid, on_more-IsValid,
  untouched-IsValid,
}
use accp.TaskList.Steps.Valid.Answers.{fire-IsValid, answered-IsValid, genuine}

module _ {Err : Type 0} (me_id : Text) (serve : Params → Answer Err) where
  step-IsValid :
      (e : Event Err me_id serve) (s : TaskList Err)
      → IsBound me_id serve
      → IsValid me_id serve s
      → IsValid me_id serve (step Err me_id serve e s)
  unfolding step on_sort_field on_sort_order on_header_sort clear_filters on_mine on_status on_owner
      on_tasks_epoch on_retry toggle_one toggle_all on_applied check_list
  step-IsValid (Event.sorts_by field) s b v = apply_query-IsValid me_id serve _ (some push) s v.core
  step-IsValid (Event.orders_by order) s b v =
      apply_query-IsValid me_id serve _ (some push) s v.core
  step-IsValid (Event.sorts_header field) s b v =
      apply_query-IsValid me_id serve _ (some push) s v.core
  step-IsValid Event.clears s b v = apply_query-IsValid me_id serve _ (some push) s v.core
  step-IsValid (Event.chooses_mine mine) s b v =
      apply_query-IsValid me_id serve _ (some push) s v.core
  step-IsValid (Event.chooses_status status) s b v =
      apply_query-IsValid me_id serve _ (some push) s v.core
  step-IsValid (Event.chooses_owner owner) s b v =
      apply_query-IsValid me_id serve _ (some push) s v.core
  step-IsValid (Event.searches value) s b v = on_search-IsValid me_id serve value s v
  step-IsValid Event.escapes s b v = on_escape-IsValid me_id serve s v
  step-IsValid (Event.pops route parsed) s b v = on_pop_state-IsValid me_id serve route parsed s v
  step-IsValid Event.tasks_changed s b v = again-IsValid me_id serve true s v.core
  step-IsValid Event.retries s b v =
      again-IsValid me_id serve false (record s { first_error = none }) v.core
  step-IsValid Event.presses_more s b v = on_more-IsValid me_id serve s v
  step-IsValid (Event.toggles id on) s b v =
      untouched-IsValid me_id serve _ s.search_input s.written s v
  step-IsValid (Event.toggles_all on) s b v =
      untouched-IsValid me_id serve _ s.search_input s.written s v
  step-IsValid (Event.applied failed) s b v =
      again-IsValid me_id serve true (record s { selected = failed }) v.core
  step-IsValid Event.checks_list s b v =
      apply_query-IsValid me_id serve _ (some replace) (record s { creating = false }) v.core
  step-IsValid Event.timer_fires s b v = fire-IsValid me_id serve s.timer s refl v
  step-IsValid (Event.served k) s b v =
      answered-IsValid me_id serve (get? k s.asked) k _ s b (λ f. genuine me_id serve f _ refl) refl
        v
  step-IsValid (Event.breaks k e invalid) s b v =
      answered-IsValid me_id serve (get? k s.asked) k _ s b (λ _. refl) refl v

  run-IsValid :
      (es : List (Event Err me_id serve)) (s : TaskList Err)
      → IsBound me_id serve
      → IsValid me_id serve s
      → IsValid me_id serve (run Err me_id serve es s)
  unfolding run
  run-IsValid [] s b v = v
  run-IsValid (e ∷ es) s b v = run-IsValid es _ b (step-IsValid e s b v)

  mount-IsValid :
      (parsed : TaskListQuery × Bool) → IsValid me_id serve (mount Err me_id serve parsed)
  unfolding mount Held
  mount-IsValid (query, normalized) =
      run_effect-IsValid me_id serve first (mounting Err me_id serve (query, normalized))
        (record { held = inl refl; before = tt }) refl

  -- Whatever the user does and however requests end or overtake each other: when the list is at
  -- rest and shows no error, it is the first page of the filters that are set and the pages that
  -- continue it, each once and in order, and the cursor kept is the last page's. The server's pages
  -- stay the same, and it continues a cursor for the filters only that it was given for.
  pub run-Shown :
      (parsed : TaskListQuery × Bool) (es : List (Event Err me_id serve))
      → IsBound me_id serve
      → (run Err me_id serve es (mount Err me_id serve parsed)).loading ≡ false
      → (run Err me_id serve es (mount Err me_id serve parsed)).first_error ≡ none
      → (run Err me_id serve es (mount Err me_id serve parsed)).append_error ≡ false
      → Shown me_id serve
          (filters me_id serve (run Err me_id serve es (mount Err me_id serve parsed)).query)
          (run Err me_id serve es (mount Err me_id serve parsed)).items
          (run Err me_id serve es (mount Err me_id serve parsed)).next_cursor
  run-Shown parsed es bound rest no_error no_append_error =
      (run-IsValid es _ bound (mount-IsValid parsed)).settled rest no_error no_append_error

  -- While the list is loading, its timer runs or exactly one request that is in force is on its way:
  -- it never waits for an answer that it would not take. The server continues a cursor only for the
  -- filters that it was given for.
  pub run-IsPending :
      (parsed : TaskListQuery × Bool) (es : List (Event Err me_id serve))
      → IsBound me_id serve
      → (run Err me_id serve es (mount Err me_id serve parsed)).loading ≡ true
      → IsPending me_id serve
          (run Err me_id serve es (mount Err me_id serve parsed)).request_gen
          (run Err me_id serve es (mount Err me_id serve parsed)).asked
          (run Err me_id serve es (mount Err me_id serve parsed)).timer
  run-IsPending parsed es bound = (run-IsValid es _ bound (mount-IsValid parsed)).alive

-- ===== src/TaskList/Steps.antt =====
-- web/src/tasks/Tasks.tsx: the machine of all that can happen to the list. `serve` is what the server
-- answers to the parameters of a request.
pub mod Valid
pub mod Settled
pub mod Recovery
mod Tests
use accp.Prelude.{
  ℕ, zero, suc, Bool, true, false, not, List, [], ◌∷◌, ◌++◌, Option, none, some, if◌then◌else◌,
  get?, delete_at,
}
use accp.Text.{Text, codes}
use accp.ProjectData.{Doc}
use accp.Routing.{Route}
use accp.TaskQuery.{TaskListQuery, Params, SortField, SortOrder, HistoryMode, replace}
use accp.TaskList.{
  TaskList, Mode, first, append, quiet, ListIntent, Flight, Answer, failure, fire, request_params,
  run_effect, take_answer,
}
use accp.TaskList.Handlers.{
  on_sort_field, on_sort_order, on_header_sort, clear_filters, on_mine, on_status, on_owner,
  on_search, on_escape, on_pop_state, on_tasks_epoch, on_retry, on_more, toggle_one, toggle_all,
  on_applied, check_list,
}

module _ (Err : Type 0) (me_id : Text) (serve : Params → Answer Err) where
  -- `served k` and `breaks k` answer the request at place `k` of those on their way.
  pub data Event : Type 0 where
    sorts_by : SortField → Event
    orders_by : SortOrder → Event
    sorts_header : SortField → Event
    clears : Event
    chooses_mine : Bool → Event
    chooses_status : Text → Event
    chooses_owner : Text → Event
    searches : Text → Event
    escapes : Event
    pops : Route → TaskListQuery × Bool → Event
    tasks_changed : Event
    retries : Event
    presses_more : Event
    toggles : Text → Bool → Event
    toggles_all : Bool → Event
    applied : List Text → Event
    checks_list : Event
    timer_fires : Event
    served : ℕ → Event
    breaks : ℕ → Err → (invalid_cursor : Bool) → Event

  abbrev pub answered : Option Flight → ℕ → (Flight → Answer Err) → TaskList Err → TaskList Err
  answered none k a s = s
  answered (some f) k a s = take_answer Err f (a f) (record s { asked = delete_at k s.asked })

  pub step : Event → TaskList Err → TaskList Err
  unfolding on_sort_field on_sort_order on_header_sort clear_filters on_mine on_status on_owner
      on_search on_escape on_pop_state on_tasks_epoch on_retry on_more toggle_one toggle_all
      on_applied check_list fire take_answer
  step (sorts_by field) s = on_sort_field Err field s
  step (orders_by order) s = on_sort_order Err order s
  step (sorts_header field) s = on_header_sort Err field s
  step clears s = clear_filters Err s
  step (chooses_mine mine) s = on_mine Err mine s
  step (chooses_status status) s = on_status Err status s
  step (chooses_owner owner) s = on_owner Err owner s
  step (searches value) s = on_search Err value s
  step escapes s = on_escape Err s
  step (pops route parsed) s = on_pop_state Err route parsed s
  step tasks_changed s = on_tasks_epoch Err s
  step retries s = on_retry Err s
  step presses_more s = on_more Err s
  step (toggles id on) s = toggle_one Err id on s
  step (toggles_all on) s = toggle_all Err on s
  step (applied failed) s = on_applied Err failed s
  step checks_list s = check_list Err s
  step timer_fires s = fire Err s
  step (served k) s = answered (get? k s.asked) k (λ f. serve (request_params Err me_id f)) s
  step (breaks k e invalid) s = answered (get? k s.asked) k (λ f. failure e invalid) s

  pub run : List Event → TaskList Err → TaskList Err
  unfolding step
  run [] s = s
  run (e ∷ es) s = run es (step e s)

  -- The component before its effects run, for what stands in the address.
  abbrev pub mounting : TaskListQuery × Bool → TaskList Err
  mounting (query, normalized) = record {
    query = query;
    search_input = query.q;
    items = [];
    next_cursor = none;
    intent = record { id = 0; mode = first; cursor = [] };
    loading = true;
    refreshing = false;
    first_error = none;
    append_error = false;
    cursor_warning = false;
    announce = quiet;
    selected = [];
    creating = false;
    bulk_open = false;
    focused = none;
    request_gen = 0;
    invalid_cursor_retried = false;
    timer = none;
    asked = [];
    written = if normalized then (replace, query) ∷ [] else [];
  }

  pub mount : TaskListQuery × Bool → TaskList Err
  mount parsed = run_effect Err first (mounting parsed)

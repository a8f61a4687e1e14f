-- ===== src/TaskList.antt =====
-- web/src/tasks/Tasks.tsx: the state of the task list, the effect that asks for its pages and the
-- answers. The variables and refs of the component, its timer and the requests on their way are one
-- record; the effects that follow a handler are part of the step that it makes.
pub mod Handlers
pub mod Steps
pub mod View
use accp.Prelude.{
  ℕ, zero, suc, Bool, true, false, not, ◌&&◌, ◌||◌, List, [], ◌∷◌, ◌++◌, Option, none, some, ◌==◌,
  if◌then◌else◌, filter, any, length,
}
use accp.Text.{Text, codes, text_eq, is_empty}
use accp.ProjectData.{Doc}
use accp.TaskQuery.{
  TaskListQuery, Params, HistoryMode, has_active_filters, build_task_list_request_params,
}

pub data Mode : Type 0 where
  first : Mode
  append : Mode

abbrev pub is_append : Mode → Bool
is_append first = false
is_append append = true

pub record ListIntent : Type 0 where
  pub id : ℕ
  pub mode : Mode
  pub cursor : Text

-- A run of the effect that asks for a page, with what its closure holds.
pub record Flight : Type 0 where
  pub gen : ℕ
  pub query : TaskListQuery
  pub intent : ListIntent

-- What is announced to a screen reader.
pub data Announce : Type 0 where
  quiet : Announce
  loaded : (count : ℕ) → (all_loaded : Bool) → Announce
  no_match : Announce
  no_tasks : Announce
  load_failed : Announce

-- a `cursor` that is `null` or "" is none
abbrev pub is_cursor : Option Text → Bool
is_cursor none = false
is_cursor (some s) = not (is_empty s)

abbrev pub is_nil : List Doc → Bool
is_nil [] = true
is_nil (_ ∷ _) = false

-- The id of the first task of a batch, if there is one that is not "".
abbrev pub first_new : List Doc → Option Text
first_new [] = none
first_new (d ∷ _) = if is_empty d.id then none else some d.id

abbrev pub or_before : Option Text → Option Text → Option Text
or_before none old = old
or_before (some s) old = some s

-- The selected ids that are ids of the list.
abbrev pub prune : List Doc → List Text → List Text
prune items selected = filter (λ id. any (λ (d : Doc). text_eq d.id id) items) selected

module _ (Err : Type 0) where
  -- `focused` is the title that was focused last, `written` lists the addresses that were written.
  pub record TaskList : Type 0 where
    pub query : TaskListQuery
    pub search_input : Text
    pub items : List Doc
    pub next_cursor : Option Text
    pub intent : ListIntent
    pub loading : Bool
    pub refreshing : Bool
    pub first_error : Option Err
    pub append_error : Bool
    pub cursor_warning : Bool
    pub announce : Announce
    pub selected : List Text
    pub creating : Bool
    pub bulk_open : Bool
    pub focused : Option Text
    pub request_gen : ℕ
    pub invalid_cursor_retried : Bool
    pub timer : Option Flight
    pub asked : List Flight
    pub written : List (HistoryMode × TaskListQuery)

  -- `startFirst`
  unfoldable pub start_first : (refresh : Bool) → TaskList → TaskList
  start_first refresh s = record s {
    append_error = false;
    refreshing = refresh && not (is_nil s.items);
    intent = record { id = suc s.intent.id; mode = first; cursor = [] };
  }

  -- The cleanup of the effect.
  abbrev pub cleanup : TaskList → TaskList
  cleanup s = record s { request_gen = suc s.request_gen; timer = none }

  -- The effect, by the mode of the intent.
  abbrev pub run_effect : Mode → TaskList → TaskList
  run_effect append s = record s {
    request_gen = suc s.request_gen;
    loading = true;
    timer = some (record { gen = suc s.request_gen; query = s.query; intent = s.intent });
  }
  run_effect first s = record s {
    request_gen = suc s.request_gen;
    invalid_cursor_retried = false;
    loading = true;
    first_error = none;
    append_error = false;
    timer = some (record { gen = suc s.request_gen; query = s.query; intent = s.intent });
  }

  -- The query or the intent is another one.
  unfoldable pub restart : TaskList → TaskList
  restart s = run_effect s.intent.mode (cleanup s)

  -- How long the effect waits before it asks.
  pub delay : Flight → ℕ
  delay f = if not (is_empty f.query.q) && not (is_append f.intent.mode) then 250 else 0

  -- The timer has run out: the request is made.
  pub fire : TaskList → TaskList
  fire s = elim s.timer [ none ↦ s | some f ↦ record s { timer = none; asked = s.asked ++ f ∷ [] } ]

  pub request_params : (me_id : Text) → Flight → Params
  request_params me_id f =
      build_task_list_request_params f.query me_id
        (if is_append f.intent.mode then f.intent.cursor else []) (codes "25")

  -- The page for an intent, from the test of the generation on.
  pub take_page : Mode → List Doc → (next : Option Text) → TaskListQuery → TaskList → TaskList
  take_page append batch next query s = record s {
    next_cursor = next;
    first_error = none;
    append_error = false;
    cursor_warning = false;
    refreshing = false;
    focused = or_before (first_new batch) s.focused;
    items = s.items ++ batch;
    announce = loaded (length batch) (not (is_cursor next));
    loading = false;
    selected = prune (s.items ++ batch) s.selected;
  }
  take_page first batch next query s = record s {
    next_cursor = next;
    first_error = none;
    append_error = false;
    cursor_warning = false;
    refreshing = false;
    items = batch;
    announce =
        if is_nil batch
        then (if has_active_filters query then no_match else no_tasks)
        else loaded (length batch) false;
    loading = false;
    selected = prune batch s.selected;
  }

  -- An answer that is not `INVALID_CURSOR`, or not for the first time.
  pub take_failure : Mode → Err → TaskList → TaskList
  take_failure append e s = record s {
    refreshing = false;
    append_error = true;
    announce = load_failed;
    loading = false;
  }
  take_failure first e s = record s {
    refreshing = false;
    first_error = some e;
    items = [];
    next_cursor = none;
    loading = false;
    selected = [];
  }

  -- The list starts again from its first page.
  pub recover : TaskList → TaskList
  unfolding start_first restart
  recover s =
      restart
        (record (start_first false
          (record s { invalid_cursor_retried = true; cursor_warning = true; items = [] })) {
            loading = false;
            selected = [];
          })

  -- What a request is answered: a page, or an error, which may be `INVALID_CURSOR`.
  pub data Answer : Type 0 where
    page : List Doc → (next : Option Text) → Answer
    failure : Err → (invalid_cursor : Bool) → Answer

  pub take_answer : Flight → Answer → TaskList → TaskList
  unfolding take_page take_failure recover
  take_answer f (page batch next) s =
      if f.gen == s.request_gen then take_page f.intent.mode batch next f.query s else s
  take_answer f (failure e invalid) s =
      if f.gen == s.request_gen
      then (if invalid && not s.invalid_cursor_retried
          then recover s
          else take_failure f.intent.mode e s)
      else s

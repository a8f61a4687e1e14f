-- ===== src/TaskList/Steps/Valid.antt =====
-- The list and its request. What is shown comes from pages that continue each other, at most one
-- request is in force, and its answer finds the query and the intent that it was made for.
pub mod Answers
mod Counting
use mathlib.Core.Option.{some-injective}
use accp.Prelude.{
  ℕ, zero, suc, ◌≤◌, ◌+◌, ◌≡◌, refl, sym, ap, subst, ◌∙◌, inl, inr, ◌⊎◌, Bool, true, false, not,
  ◌&&◌, ◌||◌, List, [], ◌∷◌, ◌++◌, Option, none, some, ◌==◌, ==_iff, if◌then◌else◌, length, filter,
  filter-append, length-append, All, All-append, All-delete_at, All-get?, get?, delete_at, arith,
  Bool-cases, Option-cases, either_way,
}
use accp.Text.{Text, codes, is_empty, text_eq, trim}
use accp.ProjectData.{Doc}
use accp.Routing.{Route, project, work, is_tasks}
use accp.TaskQuery.{
  replace, TaskListQuery, Params, HistoryMode, build_task_list_request_params, set_filled,
  task_list_search_equals,
}
use accp.TaskList.{
  TaskList, Mode, first, append, is_append, is_nil, start_first, ListIntent, Flight, Answer, page,
  failure, restart, run_effect, take_answer, take_page, take_failure, recover, fire, request_params,
}
use accp.TaskList.Handlers.{
  on_sort_field, on_sort_order, on_header_sort, clear_filters, on_mine, on_status, on_owner,
  on_search, on_escape, on_pop_state, on_tasks_epoch, on_retry, on_more, toggle_one, toggle_all,
  on_applied, check_list, load_next, apply_query, requery, press_more, append_loading,
  on_tasks_address,
}
use accp.TaskList.Steps.{Event, step, run, answered, mount}

module _ {Err : Type 0} (me_id : Text) (serve : Params → Answer Err) where
  -- The parameters of the query's requests, without a cursor.
  abbrev pub filters : TaskListQuery → Params
  filters query = build_task_list_request_params query me_id [] (codes "25")

  -- A list that is the first page and those that continue it, with the cursor that is left.
  pub data Shown (params : Params) : List Doc → Option Text → Type 0 where
    first_page :
        {xs : List Doc} {next : Option Text} → serve params ≡ page xs next → Shown params xs next
    more_pages :
        {xs ys : List Doc} {cursor : Text} {next : Option Text}
        → Shown params xs (some cursor)
        → serve (set_filled (codes "cursor") cursor params) ≡ page ys next
        → Shown params (xs ++ ys) next

  -- A cursor continues the filters that it was given for only.
  abbrev pub IsBound : Type 0
  IsBound =
      (q q' : TaskListQuery) (xs ys : List Doc) (cursor : Text) (next : Option Text)
      → is_empty cursor ≡ false
      → Shown (filters q) xs (some cursor)
      → serve (set_filled (codes "cursor") cursor (filters q')) ≡ page ys next
      → filters q ≡ filters q'

  unfoldable pub Held : List Doc → Option Text → Type 0
  Held items next = (items ≡ []) ⊎ ((q : TaskListQuery) × Shown (filters q) items next)

  abbrev in_force : ℕ → Flight → Bool
  in_force gen f = f.gen == gen

  pub record Core (items : List Doc) (next : Option Text) (gen : ℕ) (asked : List Flight)
      : Type 0 where
    pub held : Held items next
    pub before : All (λ f. f.gen ≤ gen) asked

  -- What the intent's next page is put behind.
  abbrev Continues : Mode → Text → List Doc → Option Text → Type 0
  Continues first cursor items next = items ≡ items
  Continues append cursor items next =
      (next ≡ some cursor)
      × (is_empty cursor ≡ false)
      × ((q : TaskListQuery) × Shown (filters q) items next)

  -- A request in force was made for the query and the intent that there are.
  abbrev IsOwn : TaskListQuery → ListIntent → Bool → ℕ → Flight → Type 0
  IsOwn query intent loading gen f =
      f.gen ≡ gen → (f.query ≡ query) × (f.intent ≡ intent) × (loading ≡ true)

  abbrev count : ℕ → List Flight → ℕ
  count gen fs = length (filter (in_force gen) fs)

  -- The timer is for the request that is to be in force, and no other is.
  abbrev Waits : TaskListQuery → ListIntent → Bool → ℕ → List Flight → Option Flight → Type 0
  Waits query intent loading gen asked none = gen ≡ gen
  Waits query intent loading gen asked (some f) =
      (f.gen ≡ gen)
      × (f.query ≡ query)
      × (f.intent ≡ intent)
      × (loading ≡ true)
      × (count gen asked ≡ 0)

  -- Either the timer runs, or one request in force is on its way.
  abbrev pub IsPending : ℕ → List Flight → Option Flight → Type 0
  IsPending gen asked none = count gen asked ≡ 1
  IsPending gen asked (some f) = f.gen ≡ gen

  pub record IsValid (s : TaskList Err) : Type 0 where
    pub core : Core s.items s.next_cursor s.request_gen s.asked
    single : count s.request_gen s.asked ≤ 1
    waiting : Waits s.query s.intent s.loading s.request_gen s.asked s.timer
    own : All (IsOwn s.query s.intent s.loading s.request_gen) s.asked
    continues : s.loading ≡ true → Continues s.intent.mode s.intent.cursor s.items s.next_cursor
    pub alive : s.loading ≡ true → IsPending s.request_gen s.asked s.timer
    pub settled :
        s.loading ≡ false
        → s.first_error ≡ none
        → s.append_error ≡ false
        → Shown (filters s.query) s.items s.next_cursor

  none_in_force :
      (gen gen' : ℕ) (fs : List Flight)
      → suc gen ≤ gen'
      → All (λ f. f.gen ≤ gen) fs
      → count gen' fs ≡ 0
  none_in_force gen gen' [] h hs = refl
  none_in_force gen gen' (f ∷ fs) h (b, bs) =
      ground (arith, none_in_force gen gen' fs h bs, ==_iff f.gen gen')

  later-IsOwn :
      (query : TaskListQuery) (intent : ListIntent) (loading : Bool) (gen gen' : ℕ)
      (fs : List Flight)
      → suc gen ≤ gen'
      → All (λ f. f.gen ≤ gen) fs
      → All (IsOwn query intent loading gen') fs
  later-IsOwn q i l gen gen' [] h hs = hs
  later-IsOwn q i l gen gen' (f ∷ fs) h (b, bs) =
      ((λ e. elim (absurd e) [ ]), later-IsOwn q i l gen gen' fs h bs)
    where
      absurd : f.gen ≡ gen' → ⊥
      absurd e = omega (arith, e, b, h)

  before_later :
      (gen gen' : ℕ) (fs : List Flight)
      → gen ≤ gen'
      → All (λ f. f.gen ≤ gen) fs
      → All (λ f. f.gen ≤ gen') fs
  before_later gen gen' [] h hs = hs
  before_later gen gen' (f ∷ fs) h (b, bs) = (omega (arith, b, h), before_later gen gen' fs h bs)

  -- A run of the effect supersedes whatever was on its way.
  pub run_effect-IsValid :
      (mode : Mode) (s : TaskList Err)
      → Core s.items s.next_cursor s.request_gen s.asked
      → Continues s.intent.mode s.intent.cursor s.items s.next_cursor
      → IsValid (run_effect Err mode s)
  run_effect-IsValid first s c more = record {
    core = record {
      held = c.held;
      before = before_later s.request_gen _ s.asked (omega arith) c.before;
    };
    single =
        omega
          (arith, none_in_force s.request_gen (suc s.request_gen) s.asked (omega arith) c.before);
    waiting =
        (refl, refl, refl, refl, none_in_force s.request_gen _ s.asked (omega arith) c.before);
    own = later-IsOwn _ _ _ s.request_gen _ s.asked (omega arith) c.before;
    continues = λ _. more;
    alive = λ _. refl;
    settled = λ l _ _. cc;
  }
  run_effect-IsValid append s c more = record {
    core = record {
      held = c.held;
      before = before_later s.request_gen _ s.asked (omega arith) c.before;
    };
    single =
        omega
          (arith, none_in_force s.request_gen (suc s.request_gen) s.asked (omega arith) c.before);
    waiting =
        (refl, refl, refl, refl, none_in_force s.request_gen _ s.asked (omega arith) c.before);
    own = later-IsOwn _ _ _ s.request_gen _ s.asked (omega arith) c.before;
    continues = λ _. more;
    alive = λ _. refl;
    settled = λ l _ _. cc;
  }

  pub restart-IsValid :
      (s : TaskList Err)
      → Core s.items s.next_cursor s.request_gen s.asked
      → Continues s.intent.mode s.intent.cursor s.items s.next_cursor
      → IsValid (restart Err s)
  unfolding restart
  restart-IsValid s c more =
      run_effect-IsValid s.intent.mode _
        (record {
          held = c.held;
          before = before_later s.request_gen _ s.asked (omega arith) c.before;
        })
        more

  -- What does not concern the list.
  pub untouched-IsValid :
      (selected : List Text) (search_input : Text) (written : List (HistoryMode × TaskListQuery))
      (s : TaskList Err)
      → IsValid s
      → IsValid (record s { selected = selected; search_input = search_input; written = written })
  untouched-IsValid selected input written s v = record {
    core = v.core;
    single = v.single;
    waiting = v.waiting;
    own = v.own;
    continues = v.continues;
    alive = v.alive;
    settled = v.settled;
  }

  pub again-IsValid :
      (refresh : Bool) (s : TaskList Err)
      → Core s.items s.next_cursor s.request_gen s.asked
      → IsValid (restart Err (start_first Err refresh s))
  unfolding start_first
  again-IsValid refresh s c = restart-IsValid (start_first Err refresh s) c refl

  requery-IsValid :
      (next : TaskListQuery) (input : Text) (written : List (HistoryMode × TaskListQuery))
      (s : TaskList Err)
      → Core s.items s.next_cursor s.request_gen s.asked
      → IsValid (requery Err next input written s)
  unfolding requery start_first
  requery-IsValid next input written s c =
      let t : TaskList Err = record s {
        query = next;
        search_input = input;
        written = s.written ++ written;
      } in
      restart-IsValid (record (start_first Err true t) { selected = [] }) c refl

  pub apply_query-IsValid :
      (next : TaskListQuery) (history : Option HistoryMode) (s : TaskList Err)
      → Core s.items s.next_cursor s.request_gen s.asked
      → IsValid (apply_query Err next history s)
  unfolding apply_query
  apply_query-IsValid next none s c = requery-IsValid next next.q [] s c
  apply_query-IsValid next (some mode) s c = requery-IsValid next next.q ((mode, next) ∷ []) s c

  pub on_search-IsValid :
      (value : Text) (s : TaskList Err) → IsValid s → IsValid (on_search Err value s)
  unfolding on_search
  on_search-IsValid value s v =
      either_way IsValid (text_eq (trim value) s.query.q)
        (untouched-IsValid s.selected value s.written s v) (requery-IsValid _ value _ s v.core)

  pub on_escape-IsValid : (s : TaskList Err) → IsValid s → IsValid (on_escape Err s)
  unfolding on_escape
  on_escape-IsValid s v =
      either_way IsValid (is_empty s.search_input) v (apply_query-IsValid _ (some replace) s v.core)

  -- The address is the task list's.
  there-IsValid :
      (query : TaskListQuery) (normalized : Bool) (s : TaskList Err)
      → IsValid s
      → IsValid (on_tasks_address Err query normalized s)
  unfolding on_tasks_address
  there-IsValid query normalized s v =
      let written = s.written ++ (if normalized then (replace, query) ∷ [] else []) in
      either_way IsValid (task_list_search_equals query s.query)
        (untouched-IsValid s.selected s.search_input written s v)
        (apply_query-IsValid query none (record s { written = written }) v.core)

  pub on_pop_state-IsValid :
      (route : Route) (parsed : TaskListQuery × Bool) (s : TaskList Err)
      → IsValid s
      → IsValid (on_pop_state Err route parsed s)
  unfolding on_pop_state
  on_pop_state-IsValid (work _) parsed s v = v
  on_pop_state-IsValid (project _ p _ true) parsed s v = v
  on_pop_state-IsValid (project _ p (some task) false) (query, normalized) s v =
      either_way IsValid (is_empty task && is_tasks p) (there-IsValid query normalized s v) v
  on_pop_state-IsValid (project _ p none false) (query, normalized) s v =
      either_way IsValid (is_tasks p) (there-IsValid query normalized s v) v

  load_next-IsValid :
      (cursor : Text) (s : TaskList Err)
      → Core s.items s.next_cursor s.request_gen s.asked
      → Continues append cursor s.items s.next_cursor
      → IsValid (load_next Err cursor s)
  unfolding load_next
  load_next-IsValid cursor s c more =
      restart-IsValid
        (record s {
          append_error = false;
          intent = record { id = suc s.intent.id; mode = append; cursor = cursor };
        })
        c more

  Held-Shown :
      (items : List Doc) (next : Option Text)
      → is_nil items ≡ false
      → Held items next
      → (q : TaskListQuery) × Shown (filters q) items next
  unfolding Held
  Held-Shown [] next e h = cc
  Held-Shown (d ∷ items) next e (inl nil) = cc
  Held-Shown (d ∷ items) next e (inr shown) = shown

  press_more-IsValid :
      (next : Option Text) (s : TaskList Err)
      → s.next_cursor ≡ next
      → is_nil s.items ≡ false
      → IsValid s
      → IsValid (press_more Err next s)
  press_more-IsValid none s e filled v =
      either_way IsValid s.append_error (again-IsValid false s v.core) v
  press_more-IsValid (some []) s e filled v =
      either_way IsValid s.append_error (again-IsValid false s v.core) v
  press_more-IsValid (some (c ∷ cursor)) s e filled v =
      load_next-IsValid (c ∷ cursor) s v.core
        (e, refl, Held-Shown s.items s.next_cursor filled v.core.held)

  pub on_more-IsValid : (s : TaskList Err) → IsValid s → IsValid (on_more Err s)
  unfolding on_more
  on_more-IsValid s v = elim (Bool-cases (is_nil s.items)) [
    | inl e ↦
        subst
          (λ b. IsValid (if b || append_loading Err s then s else press_more Err s.next_cursor s))
          (sym e) v
    | inr e ↦
        subst
          (λ b. IsValid (if b || append_loading Err s then s else press_more Err s.next_cursor s))
          (sym e)
          (either_way IsValid (append_loading Err s) v
            (press_more-IsValid s.next_cursor s refl e v))
  ]

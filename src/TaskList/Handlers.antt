-- ===== src/TaskList/Handlers.antt =====
-- web/src/tasks/Tasks.tsx: what the user does.
use accp.Prelude.{
  suc, Bool, true, false, not, ◌&&◌, ◌||◌, List, [], ◌∷◌, ◌++◌, map, Option, none, some,
  if◌then◌else◌, filter, any,
}
use accp.Text.{Text, codes, text_eq, is_empty, trim}
use accp.ProjectData.{Doc}
use accp.Routing.{Route, project, work, is_tasks}
use accp.TaskQuery.{
  TaskListQuery, SortField, SortOrder, asc, desc, field_text, default_task_list_query,
  default_order_for_sort, task_list_search_equals, HistoryMode, push, replace,
}
use accp.TaskList.{TaskList, append, is_append, is_nil, start_first, restart}

abbrev flip : SortOrder → SortOrder
flip asc = desc
flip desc = asc

abbrev same_field : SortField → SortField → Bool
same_field a b = text_eq (field_text a) (field_text b)

module _ (Err : Type 0) where
  -- A new query: the list starts again, and nothing stays selected.
  unfoldable pub requery :
      TaskListQuery
      → (search_input : Text) → (written : List (HistoryMode × TaskListQuery)) → TaskList Err
      → TaskList Err
  unfolding start_first restart
  requery next input written s =
      restart Err
        (record (start_first Err true
          (record s { query = next; search_input = input; written = s.written ++ written })) {
            selected = [];
          })

  unfoldable pub apply_query : TaskListQuery → Option HistoryMode → TaskList Err → TaskList Err
  unfolding requery
  apply_query next none s = requery next next.q [] s
  apply_query next (some mode) s = requery next next.q ((mode, next) ∷ []) s

  unfoldable pub on_sort_field : SortField → TaskList Err → TaskList Err
  unfolding apply_query
  on_sort_field field s =
      apply_query
        (record s.query {
          sort = field;
          order =
              if same_field field s.query.sort then s.query.order else default_order_for_sort field;
        })
        (some push) s

  unfoldable pub on_sort_order : SortOrder → TaskList Err → TaskList Err
  unfolding apply_query
  on_sort_order order s = apply_query (record s.query { order = order }) (some push) s

  unfoldable pub on_header_sort : SortField → TaskList Err → TaskList Err
  unfolding apply_query
  on_header_sort field s =
      apply_query
        (if same_field field s.query.sort
          then record s.query { order = flip s.query.order }
          else record s.query { sort = field; order = default_order_for_sort field })
        (some push) s

  unfoldable pub clear_filters : TaskList Err → TaskList Err
  unfolding apply_query
  clear_filters s =
      apply_query (record default_task_list_query { sort = s.query.sort; order = s.query.order })
        (some push) s

  -- The two buttons "all" and "mine".
  unfoldable pub on_mine : Bool → TaskList Err → TaskList Err
  unfolding apply_query
  on_mine mine s =
      apply_query (record s.query { owner = if mine then codes "me" else [] }) (some push) s

  unfoldable pub on_status : Text → TaskList Err → TaskList Err
  unfolding apply_query
  on_status next s =
      apply_query (record s.query { status = if text_eq next (codes "all") then [] else next })
        (some push) s

  unfoldable pub on_owner : Text → TaskList Err → TaskList Err
  unfolding apply_query
  on_owner next s =
      apply_query (record s.query { owner = if text_eq next (codes "all") then [] else next })
        (some push) s

  -- The text in the search field changes.
  unfoldable pub on_search : Text → TaskList Err → TaskList Err
  unfolding requery
  on_search value s =
      let next = record s.query { q = trim value } in
      if text_eq (trim value) s.query.q
      then record s { search_input = value }
      else requery next value ((replace, next) ∷ []) s

  -- Escape in the search field
  unfoldable pub on_escape : TaskList Err → TaskList Err
  unfolding apply_query
  on_escape s =
      if is_empty s.search_input
      then s
      else apply_query (record s.query { q = [] }) (some replace) s

  -- A `popstate` at the task list's address.
  unfoldable pub on_tasks_address :
      TaskListQuery → (normalized : Bool) → TaskList Err → TaskList Err
  unfolding apply_query
  on_tasks_address query normalized s =
      let s' = record s {
        written = s.written ++ (if normalized then (replace, query) ∷ [] else []);
      } in
      if task_list_search_equals query s.query then s' else apply_query query none s'

  -- A `popstate`: `parsed` is what stands in the address, and whether it had to be normalized.
  unfoldable pub on_pop_state :
      Route → (parsed : TaskListQuery × Bool) → TaskList Err → TaskList Err
  unfolding on_tasks_address
  on_pop_state (work _) parsed s = s
  on_pop_state (project _ _ _ true) parsed s = s
  on_pop_state (project _ page (some task) false) (query, normalized) s =
      if is_empty task && is_tasks page then on_tasks_address query normalized s else s
  on_pop_state (project _ page none false) (query, normalized) s =
      if is_tasks page then on_tasks_address query normalized s else s

  -- The tasks of the workspace are others.
  unfoldable pub on_tasks_epoch : TaskList Err → TaskList Err
  unfolding start_first restart
  on_tasks_epoch s = restart Err (start_first Err true s)

  -- "Retry", where the first page failed
  unfoldable pub on_retry : TaskList Err → TaskList Err
  unfolding start_first restart
  on_retry s = restart Err (start_first Err false (record s { first_error = none }))

  abbrev pub append_loading : TaskList Err → Bool
  append_loading s = s.loading && is_append s.intent.mode

  unfoldable pub load_next : (cursor : Text) → TaskList Err → TaskList Err
  unfolding restart
  load_next cursor s = restart Err (record s {
    append_error = false;
    intent = record { id = suc s.intent.id; mode = append; cursor = cursor };
  })

  -- The button for more, by the cursor that there is.
  abbrev pub press_more : Option Text → TaskList Err → TaskList Err
  press_more none s = if s.append_error then restart Err (start_first Err false s) else s
  press_more (some cursor) s =
      if is_empty cursor
      then (if s.append_error then restart Err (start_first Err false s) else s)
      else load_next cursor s

  -- The button is there under a list that is not empty; while more is loading it does nothing.
  unfoldable pub on_more : TaskList Err → TaskList Err
  unfolding load_next start_first restart
  on_more s = if is_nil s.items || append_loading s then s else press_more s.next_cursor s

  unfoldable pub toggle_one : Text → Bool → TaskList Err → TaskList Err
  toggle_one id on s =
      let others = filter (λ i. not (text_eq i id)) s.selected in
      record s {
        selected =
            if on
            then (if any (λ i. text_eq i id) s.selected then s.selected else s.selected ++ id ∷ [])
            else others;
      }

  unfoldable pub toggle_all : Bool → TaskList Err → TaskList Err
  toggle_all on s = record s { selected = if on then map (λ (d : Doc). d.id) s.items else [] }

  -- `onApplied` of a bulk transfer: what failed stays selected.
  unfoldable pub on_applied : (failed : List Text) → TaskList Err → TaskList Err
  unfolding start_first restart
  on_applied failed s = restart Err (start_first Err true (record s { selected = failed }))

  -- `checkList`, after a creation whose result is not known
  unfoldable pub check_list : TaskList Err → TaskList Err
  unfolding apply_query
  check_list s = apply_query default_task_list_query (some replace) (record s { creating = false })

  pub selected_tasks : TaskList Err → List Doc
  selected_tasks s = filter (λ (d : Doc). any (λ id. text_eq id d.id) s.selected) s.items

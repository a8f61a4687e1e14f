-- ===== src/TaskList/View.antt =====
-- web/src/tasks/Tasks.tsx: what the list shows of its state.
use accp.Prelude.{
  Bool, true, false, not, ◌&&◌, ◌||◌, List, Option, none, some, ltb, ◌==◌, if◌then◌else◌, any,
  find?, length,
}
use accp.Text.{Text, codes, text_eq, is_empty}
use accp.ProjectData.{Membership}
use accp.TaskQuery.{TaskListQuery, SortField, asc, field_text}
use accp.TaskList.{TaskList, is_cursor, is_nil}
use accp.TaskList.Handlers.{append_loading, selected_tasks}

pub mine_selected : TaskListQuery → (me_id : Text) → Bool
mine_selected query me_id = text_eq query.owner (codes "me") || text_eq query.owner me_id

pub owner_select_value : TaskListQuery → (me_id : Text) → Text
unfolding mine_selected
owner_select_value query me_id =
    if is_empty query.owner
    then codes "all"
    else (if mine_selected query me_id then codes "me" else query.owner)

pub can_create : (roles : List Text) → Bool
can_create roles = any (text_eq (codes "MEMBER")) roles || any (text_eq (codes "ADMIN")) roles

pub owner_name : List Membership → Text → Text
owner_name members id = elim (find? (λ (m : Membership). text_eq m.id id) members) [
  | none ↦ id
  | some m ↦ if is_empty m.display_name then id else m.display_name
]

-- `ascending` where the column is sorted
pub aria_sort : TaskListQuery → SortField → Option Text
aria_sort query field =
    if text_eq (field_text query.sort) (field_text field)
    then some (elim query.order [ asc ↦ codes "ascending" | _ ↦ codes "descending" ])
    else none

-- The foot of the list.
pub data Foot : Type 0 where
  more_button : (busy : Bool) → (retries : Bool) → Foot
  all_loaded : Foot
  nothing : Foot

abbrev pub foot_of : (filled append_error append_loading loading : Bool) → Foot
foot_of filled append_error append_loading loading =
    if filled || append_error || append_loading
    then more_button append_loading append_error
    else (if loading then nothing else all_loaded)

module _ (Err : Type 0) where
  abbrev no_error : Option Err → Bool
  no_error none = true
  no_error (some _) = false

  pub show_skeleton : TaskList Err → Bool
  show_skeleton s = s.loading && is_nil s.items && no_error s.first_error

  pub show_refresh_chrome : TaskList Err → Bool
  show_refresh_chrome s = s.refreshing && not (is_nil s.items)

  pub all_selected : TaskList Err → Bool
  all_selected s = not (is_nil s.items) && (length (selected_tasks Err s) == length s.items)

  pub some_selected : TaskList Err → Bool
  some_selected s = ltb 0 (length (selected_tasks Err s)) && not (all_selected s)

  unfoldable pub foot : TaskList Err → Foot
  foot s = foot_of (is_cursor s.next_cursor) s.append_error (append_loading Err s) s.loading

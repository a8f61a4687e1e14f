-- ===== src/TaskQuery.antt =====
-- web/src/tasks/taskListSearchParams.ts: the filters of the task list, in the address and in the
-- request. `URLSearchParams` is its list of keys and values; the form that its constructor reads and
-- `toString` writes is the browser's, and a parameter.
pub mod Params
pub mod Reading
mod Tests
use accp.Prelude.{
  ◌≡◌, refl, ℕ, Bool, true, false, ◌&&◌, ◌||◌, List, [], ◌∷◌, ◌++◌, drop, Option, none, some,
  if◌then◌else◌,
}
use accp.Text.{Text, codes, text_eq, is_empty, starts_with, trim}
use accp.Assoc.{lookup, delete}

-- `URLSearchParams`
abbrev pub Params : Type 0
Params = List (Text × Text)

-- `URLSearchParams.set`: the first value of the key is replaced, the others go.
unfoldable pub set_param : Text → Text → Params → Params
unfolding delete
set_param key v [] = (key, v) ∷ []
set_param key v ((k, w) ∷ ps) =
    let rest = set_param key v ps in if text_eq k key then (k, v) ∷ delete key ps else (k, w) ∷ rest

-- `URLSearchParams.get`
unfoldable pub get_param : Text → Params → Option Text
unfolding lookup
get_param = lookup

pub data SortField : Type 0 where
  updated_at : SortField
  title : SortField

pub data SortOrder : Type 0 where
  asc : SortOrder
  desc : SortOrder

abbrev pub field_text : SortField → Text
field_text updated_at = codes "updated_at"
field_text title = codes "title"

abbrev pub order_text : SortOrder → Text
order_text asc = codes "asc"
order_text desc = codes "desc"

pub record TaskListQuery : Type 0 where
  pub q : Text
  pub owner : Text
  pub status : Text
  pub sort : SortField
  pub order : SortOrder

abbrev pub default_task_list_query : TaskListQuery
default_task_list_query = record {
  q = [];
  owner = [];
  status = [];
  sort = updated_at;
  order = desc;
}

abbrev pub default_order_for_sort : SortField → SortOrder
default_order_for_sort title = asc
default_order_for_sort updated_at = desc

-- `isSortField`, with the field
pub is_sort_field : Option Text → Option SortField
is_sort_field none = none
is_sort_field (some s) =
    if text_eq s (codes "updated_at")
    then some updated_at
    else (if text_eq s (codes "title") then some title else none)

-- `isSortOrder`, with the order
pub is_sort_order : Option Text → Option SortOrder
is_sort_order none = none
is_sort_order (some s) =
    if text_eq s (codes "asc")
    then some asc
    else (if text_eq s (codes "desc") then some desc else none)

-- The sort and the order for those in the address, and whether they had to be normalized.
pub choose_sort : Option SortField → Option SortOrder → SortField × SortOrder × Bool
choose_sort (some s) (some o) = (s, o, false)
choose_sort (some s) none = (s, default_order_for_sort s, true)
choose_sort none o = (default_task_list_query.sort, default_task_list_query.order, true)

abbrev pub or_blank : Option Text → Text
or_blank none = []
or_blank (some s) = s

abbrev pub is_true : Option Text → Bool
is_true none = false
is_true (some s) = text_eq s (codes "true")

-- `parseTaskListSearch`, from the parameters on
pub read_params : Params → TaskListQuery × Bool
unfolding get_param is_sort_field is_sort_order choose_sort
read_params params =
    let (sort, order, normalized) =
      choose_sort (is_sort_field (get_param (codes "sort") params))
        (is_sort_order (get_param (codes "order") params)) in
    (
      record {
        q = trim (or_blank (get_param (codes "q") params));
        owner = or_blank (get_param (codes "owner") params);
        status =
            if is_true (get_param (codes "archived") params)
            then codes "archived"
            else or_blank (get_param (codes "status") params);
        sort = sort;
        order = order;
      },
      normalized,
    )

pub parse_task_list_search : (parse : Text → Params) → Text → TaskListQuery × Bool
unfolding read_params
parse_task_list_search parse search =
    read_params (parse (if starts_with (codes "?") search then drop 1 search else search))

-- `if (value) params.set(key, value)`
abbrev pub set_filled : Text → Text → Params → Params
set_filled key v params = if is_empty v then params else set_param key v params

abbrev pub set_status : Text → Params → Params
set_status status params =
    if text_eq status (codes "archived")
    then set_param (codes "archived") (codes "true") params
    else set_filled (codes "status") status params

pub task_list_params : TaskListQuery → Params
unfolding set_param
task_list_params query = set_param (codes "order") (order_text query.order) (
    set_param (codes "sort") (field_text query.sort) (
      set_status query.status
        (set_filled (codes "owner") query.owner (set_filled (codes "q") query.q []))))

pub serialize_task_list_search : (print : Params → Text) → TaskListQuery → Text
unfolding task_list_params
serialize_task_list_search print query =
    let text = print (task_list_params query) in if is_empty text then [] else codes "?" ++ text

unfoldable pub task_list_search_equals : TaskListQuery → TaskListQuery → Bool
task_list_search_equals a b =
    text_eq a.q b.q
    && text_eq a.owner b.owner
    && text_eq a.status b.status
    && text_eq (field_text a.sort) (field_text b.sort)
    && text_eq (order_text a.order) (order_text b.order)

pub has_active_filters : TaskListQuery → Bool
has_active_filters query =
    elim (is_empty query.q && is_empty query.owner && is_empty query.status) [
      | true ↦ false
      | false ↦ true
    ]

unfoldable pub api_owner_param : (owner me_id : Text) → Option Text
api_owner_param owner me_id =
    if is_empty owner then none else (if text_eq owner (codes "me") then some me_id else some owner)

-- `limit` is the text of the number.
unfoldable pub build_task_list_request_params : TaskListQuery → (me_id cursor limit : Text) → Params
unfolding set_param api_owner_param
build_task_list_request_params query me_id cursor limit = set_filled (codes "cursor") cursor (
    set_status query.status (
      set_filled (codes "owner") (or_blank (api_owner_param query.owner me_id)) (
        set_filled (codes "q") query.q (
          (codes "limit", limit)
          ∷ (codes "sort", field_text query.sort)
          ∷ (codes "order", order_text query.order)
          ∷ []))))

pub build-cursor :
    (query : TaskListQuery) (me_id cursor limit : Text)
    → build_task_list_request_params query me_id cursor limit
      ≡ set_filled (codes "cursor") cursor (build_task_list_request_params query me_id [] limit)
unfolding build_task_list_request_params
build-cursor query me_id cursor limit = refl

pub data HistoryMode : Type 0 where
  push : HistoryMode
  replace : HistoryMode

-- `writeTaskListUrl`: the address, and whether it is pushed or put in place of the present one.
pub write_task_list_url :
    (print : Params → Text)
    → (pathname hash : Text) → TaskListQuery
    → HistoryMode
    → HistoryMode × Text
unfolding serialize_task_list_search
write_task_list_url print pathname hash query mode =
    (mode, pathname ++ (serialize_task_list_search print query ++ hash))

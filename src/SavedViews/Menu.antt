-- ===== src/SavedViews/Menu.antt =====
-- web/src/tasks/SavedViews.tsx: the menu of the saved views. `read_pairs` and `print_pairs` are those
-- of `URLSearchParams`, `set` is `localStorage.setItem` on what the storage reads as.
mod Laws
mod Tests
use accp.Prelude.{
  Bool, true, false, not, List, [], ◌∷◌, ◌++◌, Option, none, some, if◌then◌else◌, find?,
}
use accp.Text.{Text, text_eq, is_empty, trim}
use accp.Json.{Json}
use accp.TaskQuery.{
  TaskListQuery, Params, parse_task_list_search, serialize_task_list_search,
  task_list_search_equals,
}
use accp.SavedViews.{
  SavedView, Reads, Storage, read_saved_views, write_saved_views, upsert_saved_view,
  remove_saved_view,
}

-- What is announced to a screen reader.
pub data Said : Type 0 where
  quiet : Said
  saved : Text → Said
  removed : Text → Said

-- `reads` is the storage of the browser, as it reads.
pub record Menu : Type 0 where
  pub project_id : Text
  pub views : List SavedView
  pub saving : Bool
  pub name : Text
  pub announce : Said
  pub reads : Reads

abbrev name_or_blank : Option SavedView → Text
name_or_blank none = []
name_or_blank (some v) = v.name

module _ (lower : Text → Text) (parse : Text → Option Json) (stringify : Json → Text)
    (set : Reads → Text → Text → Option Reads) (read_pairs : Text → Params)
    (print_pairs : Params → Text) where
  abbrev pub storage_of : Reads → Storage
  storage_of reads = record { get_item = reads; set_item = set reads }

  -- The test of `active`.
  pub shows : TaskListQuery → SavedView → Bool
  shows query v = task_list_search_equals (parse_task_list_search read_pairs v.search).0 query

  pub active : List SavedView → TaskListQuery → Option SavedView
  unfolding shows
  active views query = find? (shows query) views

  pub persist : List SavedView → Menu → Menu
  persist next s = record s {
    views = next;
    reads = write_saved_views stringify (storage_of s.reads) s.project_id next;
  }

  pub save : TaskListQuery → Menu → Menu
  unfolding persist
  save query s =
      let trimmed = trim s.name in
      if is_empty trimmed
      then s
      else record (persist
          (upsert_saved_view lower s.views trimmed (serialize_task_list_search print_pairs query))
          s) { announce = saved trimmed; saving = false; name = [] }

  abbrev pub remove_found : Option SavedView → Menu → Menu
  remove_found none s = s
  remove_found (some v) s = record (persist (remove_saved_view lower s.views v.name) s) {
    announce = removed v.name;
  }

  pub remove : TaskListQuery → Menu → Menu
  unfolding active persist
  remove query s = remove_found (active s.views query) s

  -- The effect when the project is another one.
  pub change_project : Text → Menu → Menu
  change_project id s = record s {
    project_id = id;
    views = read_saved_views lower parse (storage_of s.reads) id;
  }

  pub open_save : TaskListQuery → Menu → Menu
  unfolding active
  open_save query s = record s { name = name_or_blank (active s.views query); saving = true }

  abbrev search_of : Option SavedView → Option Text
  search_of none = none
  search_of (some v) = some v.search

  -- What `onApplyView` is called with, if it is called.
  pub choose : (next : Text) → Menu → Option Text
  choose next s =
      if is_empty next
      then none
      else search_of (find? (λ (v : SavedView). text_eq v.name next) s.views)

  -- An event, under the query that the list has.
  pub data Event : Type 0 where
    saves : Event
    removes : Event
    changes_project : Text → Event
    opens_save : Event
    types : Text → Event
    cancels : Event

  pub step : TaskListQuery → Event → Menu → Menu
  unfolding save remove change_project open_save
  step query saves s = save query s
  step query removes s = remove query s
  step query (changes_project id) s = change_project id s
  step query opens_save s = open_save query s
  step query (types name) s = record s { name = name }
  step query cancels s = record s { saving = false }

  pub run : List (TaskListQuery × Event) → Menu → Menu
  unfolding step
  run [] s = s
  run ((query, e) ∷ es) s = run es (step query e s)

  pub mount : Text → Reads → Menu
  mount id reads = record {
    project_id = id;
    views = read_saved_views lower parse (storage_of reads) id;
    saving = false;
    name = [];
    announce = quiet;
    reads = reads;
  }

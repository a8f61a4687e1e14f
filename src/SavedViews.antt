-- ===== src/SavedViews.antt =====
-- web/src/tasks/savedViewModel.ts: named filter views of the task list, kept in the browser's
-- storage for each project. `toLowerCase` and the engine's JSON are parameters.
pub mod Valid
pub mod Lookup
pub mod Storing
pub mod Menu
mod Tests
use mathlib.Core.Option
use accp.Prelude.{
  ℕ, ◌-◌, Bool, true, false, not, List, [], ◌∷◌, ◌++◌, map, Option, none, some, leb, if◌then◌else◌,
  length, drop, filter, find?, any,
}
use accp.Text.{Text, codes, text_eq, is_empty, trim}
use accp.Json.{
  Json, null, bool, num, str, arr, obj, Items, nil, cons, Members, end, member, property,
}

pub record SavedView : Type 0 where
  pub name : Text
  pub search : Text

abbrev pub max_saved_views : ℕ
max_saved_views = 20

abbrev pub saved_views_key_prefix : Text
saved_views_key_prefix = codes "accp.task-views."

pub saved_views_key : Text → Text
saved_views_key project_id = saved_views_key_prefix ++ project_id

-- The fields of an entry of the stored array, if both are there and are strings.
abbrev both : Option Json → Option Json → Option SavedView
both (some (str name)) (some (str search)) = some (record { name = name; search = search })
both _ _ = none

pub read_entry : Json → Option SavedView
read_entry (obj ms) = both (property (codes "name") ms) (property (codes "search") ms)
read_entry _ = none

module _ (lower : Text → Text) where
  -- names that differ only in case are one
  abbrev pub same_name : Text → Text → Bool
  same_name a b = text_eq (lower a) (lower b)

  -- the loop of `parseSavedViews`
  pub collect : Items → List SavedView → List SavedView
  unfolding read_entry
  collect nil views = views
  collect (cons entry rest) views =
      let skipped = collect rest views in
      elim (read_entry entry) [
        | none ↦ skipped
        | some e ↦
            let name = trim e.name in
            let pushed = views ++ record { name = name; search = e.search } ∷ [] in
            let more = collect rest pushed in
            if is_empty name
            then skipped
            else (if any (λ v. same_name v.name name) views
                then skipped
                else (if leb max_saved_views (length pushed) then pushed else more))
      ]

  abbrev from_json : Option Json → List SavedView
  from_json (some (arr entries)) = collect entries []
  from_json _ = []

  -- `raw` is what the storage has; `parse` gives `none` where `JSON.parse` throws.
  pub parse_saved_views : (parse : Text → Option Json) → Option Text → List SavedView
  unfolding collect
  parse_saved_views parse none = []
  parse_saved_views parse (some raw) = if is_empty raw then [] else from_json (parse raw)

  pub upsert_saved_view : List SavedView → (name search : Text) → List SavedView
  upsert_saved_view views name search =
      let trimmed = trim name in
      let rest = filter (λ v. not (same_name v.name trimmed)) views in
      let all = rest ++ record { name = trimmed; search = search } ∷ [] in
      drop (length all - max_saved_views) all

  pub remove_saved_view : List SavedView → Text → List SavedView
  remove_saved_view views name =
      let target = lower (trim name) in filter (λ v. not (text_eq (lower v.name) target)) views

  pub find_saved_view : List SavedView → Text → Option SavedView
  find_saved_view views name =
      let target = lower (trim name) in find? (λ v. text_eq (lower v.name) target) views

-- The value that `serializeSavedViews` hands to `JSON.stringify`.
pub to_json : List SavedView → Items
to_json [] = nil
to_json (v ∷ vs) =
    cons (obj (member (codes "name") (str v.name) (member (codes "search") (str v.search) end)))
      (to_json vs)

pub serialize_saved_views : (stringify : Json → Text) → List SavedView → Text
unfolding to_json
serialize_saved_views stringify views = stringify (arr (to_json views))

-- `localStorage`: reading or writing an item may throw, which is `none`.
pub record Storage : Type 0 where
  pub get_item : Text → Option (Option Text)
  pub set_item : Text → Text → Option (Text → Option (Option Text))

abbrev or_empty : Option (List SavedView) → List SavedView
or_empty none = []
or_empty (some views) = views

pub read_saved_views :
    (lower : Text → Text) (parse : Text → Option Json) → Storage → Text → List SavedView
unfolding parse_saved_views saved_views_key
read_saved_views lower parse storage project_id =
    or_empty
      (Option.map (parse_saved_views lower parse) (storage.get_item (saved_views_key project_id)))

abbrev pub Reads : Type 0
Reads = Text → Option (Option Text)

abbrev pub behind : Reads → Option Reads → Reads
behind before none = before
behind before (some reads) = reads

-- The storage as it reads behind the write; if the write throws, as before.
pub write_saved_views : (stringify : Json → Text) → Storage → Text → List SavedView → Reads
unfolding serialize_saved_views saved_views_key
write_saved_views stringify storage project_id views =
    behind storage.get_item
      (storage.set_item (saved_views_key project_id) (serialize_saved_views stringify views))

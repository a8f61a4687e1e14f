-- ===== src/SavedViews/Menu/Tests.antt =====
-- web/src/tasks/SavedViews.tsx with a browser of its own: texts are written with marks between them.
use accp.Prelude.{
  ℕ, zero, suc, ◌≡◌, refl, ap, ◌∙◌, List, [], ◌∷◌, ◌++◌, append-nil, ap₂, Option, none, some,
  if◌then◌else◌, false,
}
use accp.Text.{Text, codes, text_eq, text_eq_refl, is_empty, trim}
use accp.Json.{Json, Items, arr, nil, cons, property}
use accp.TaskQuery.{TaskListQuery, Params, default_task_list_query, task_list_params}
use accp.SavedViews.{SavedView, Reads, to_json, read_entry}
use accp.SavedViews.Menu.{Menu, Event, run, mount}
use accp.SavedViews.Menu.Laws.{IsWorking, IsStored, run-mount-IsStored}

abbrev raise : Text → Text
raise [] = []
raise (c ∷ s) = suc (suc c) ∷ raise s

abbrev code : Option SavedView → Text → Text
code none rest = rest
code (some v) rest = raise v.name ++ 0 ∷ (raise v.search ++ 1 ∷ rest)

encode : Items → Text
unfolding read_entry
encode nil = []
encode (cons j rest) = code (read_entry j) (encode rest)

-- The text before the first mark, the text between it and the next, and the views behind.
abbrev close : Text × Option Text × List SavedView → List SavedView
close (name, none, vs) = vs
close (name, some search, vs) = record { name = name; search = search } ∷ vs

abbrev read_mark : ℕ → Text × Option Text × List SavedView → Text × Option Text × List SavedView
read_mark zero (seg, mid, vs) = ([], some seg, vs)
read_mark (suc zero) state = ([], none, close state)
read_mark (suc (suc c)) (seg, mid, vs) = (c ∷ seg, mid, vs)

decode : Text → Text × Option Text × List SavedView
decode [] = ([], none, [])
decode (c ∷ s) = read_mark c (decode s)

decode-raise :
    (t s : Text) → decode (raise t ++ s) ≡ (t ++ (decode s).0, (decode s).1, (decode s).2)
unfolding decode
decode-raise [] s = refl
decode-raise (c ∷ t) s = ap (read_mark (suc (suc c))) (decode-raise t s)

decode-encode : (vs : List SavedView) → close (decode (encode (to_json vs))) ≡ vs
unfolding encode decode to_json property text_eq read_entry
decode-encode [] = refl
decode-encode (v ∷ vs) =
    ap close (decode-raise v.name (0 ∷ (raise v.search ++ 1 ∷ encode (to_json vs))))
    ∙ ap
        (λ (st : Text × Option Text × List SavedView).
          record { name = v.name ++ []; search = st.0 } ∷ st.2)
        (decode-raise v.search (1 ∷ encode (to_json vs)))
    ∙ ap₂ (λ n t. record { name = n; search = t } ∷ close (decode (encode (to_json vs))))
        (append-nil v.name) (append-nil v.search)
    ∙ ap (λ rest. v ∷ rest) (decode-encode vs)

-- `JSON.stringify` and `JSON.parse`, for arrays of views.
abbrev write_json : Json → Text
write_json (arr items) = 91 ∷ encode items
write_json _ = 123 ∷ []

abbrev read_json : Text → Option Json
read_json [] = none
read_json (c ∷ s) = some (arr (to_json (close (decode s))))

abbrev put : Reads → Text → Text → Option Reads
put reads key value = some (λ k. if text_eq k key then some (some value) else reads k)

abbrev same_case : Text → Text
same_case t = t

-- Texts that hold parameters behind each other, for the filters without a value.
abbrev no_pairs : Text → Params
no_pairs t = task_list_params default_task_list_query

abbrev blank : Params → Text
blank ps = []

browser-IsWorking : IsWorking same_case read_json write_json put no_pairs blank
browser-IsWorking = record {
  keeps = λ r key value. (_, refl, rw (text_eq_refl key) refl);
  back = λ views v. ap (λ vs. some (arr (to_json vs))) (decode-encode views);
  filled = λ views e. cc;
}

abbrev unset : Reads
unset key = some none

abbrev events : List (TaskListQuery × Event same_case read_json write_json put no_pairs blank)
events =
    (default_task_list_query, Event.types (codes " Mine "))
    ∷ (default_task_list_query, Event.saves)
    ∷ (default_task_list_query, Event.opens_save)
    ∷ []

run-mount-IsStored_example : IsStored same_case read_json write_json put no_pairs blank (
    run same_case read_json write_json put no_pairs blank events
      (mount same_case read_json write_json put no_pairs blank (codes "p1") unset))
run-mount-IsStored_example =
    run-mount-IsStored same_case read_json write_json put no_pairs blank (codes "p1") unset events
      browser-IsWorking

abbrev naming : Menu
naming = record (mount same_case read_json write_json put no_pairs blank (codes "p1") unset) {
  name = codes " Mine ";
}

naming_filled : is_empty (trim naming.name) ≡ false
unfolding trim text_eq
naming_filled = refl

naming_trimmed : trim default_task_list_query.q ≡ default_task_list_query.q
unfolding trim
naming_trimmed = refl

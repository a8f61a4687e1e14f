-- ===== src/TaskList/Steps/Tests.antt =====
-- web/src/tasks/Tasks.tsx with a server of two pages.
use accp.Prelude.{
  ◌≡◌, refl, sym, ◌∙◌, subst, inl, inr, Bool, true, false, ◌&&◌, List, [], ◌∷◌, Option, none, some,
  if◌then◌else◌, arith, Bool-cases,
}
use accp.Text.{Text, codes, text_eq, text_eq_iff, trim}
use accp.Assoc.{lookup, delete}
use accp.Json.{Json}
use accp.ProjectData.{Doc}
use accp.TaskQuery.{
  TaskListQuery, Params, default_task_list_query, set_param, api_owner_param, get_param,
  build_task_list_request_params,
}
use accp.TaskQuery.Params.{delete-set_filled, delete-build}
use accp.TaskList.{
  TaskList, Answer, page, failure, fire, take_answer, take_page, request_params, restart,
  start_first,
}
use accp.TaskList.Handlers.{on_search, on_escape, on_more, requery, apply_query, load_next}
use accp.TaskList.View.{foot, all_loaded}
use accp.TaskList.Steps.{Event, step, run, mount}
use accp.TaskList.Steps.Valid.{filters, Shown, first_page, more_pages, IsBound, IsPending}
use accp.TaskList.Steps.Recovery.{rounds, rounds_loading}
use accp.TaskList.Steps.Settled.{run-Shown, run-IsPending}

abbrev same_params : Params → Params → Bool
same_params [] [] = true
same_params [] (_ ∷ _) = false
same_params (_ ∷ _) [] = false
same_params ((k, v) ∷ ps) ((l, w) ∷ qs) = text_eq k l && text_eq v w && same_params ps qs

same_params_eq : (ps qs : Params) → same_params ps qs ≡ true → ps ≡ qs
same_params_eq [] [] h = refl
same_params_eq [] (_ ∷ _) h = cc
same_params_eq (_ ∷ _) [] h = cc
same_params_eq ((k, v) ∷ ps) ((l, w) ∷ qs) h =
    ground (arith, text_eq_iff k l, text_eq_iff v w, same_params_eq ps qs, h)

abbrev task : Text → Doc
task id = record { id = id; updated_at = codes "2026-01-01T00:00:00Z"; fields = Json.null }

abbrev chosen : Params
chosen = build_task_list_request_params default_task_list_query (codes "u1") [] (codes "25")

abbrev page_of : Option Text → Answer Text
page_of none = page (task (codes "t1") ∷ []) (some (codes "n"))
page_of (some _) = page (task (codes "t2") ∷ []) none

-- Two pages for the list without filters; any other request is refused.
serve : Params → Answer Text
serve ps =
    if same_params (delete (codes "cursor") ps) chosen
    then page_of (get_param (codes "cursor") ps)
    else failure (codes "INVALID_CURSOR") true

serve_page :
    (ps : Params) (xs : List Doc) (next : Option Text)
    → serve ps ≡ page xs next
    → delete (codes "cursor") ps ≡ chosen
unfolding serve
serve_page ps xs next h = elim (Bool-cases (same_params (delete (codes "cursor") ps) chosen)) [
  | inl e ↦ same_params_eq _ _ e
  | inr e ↦ cc (
      subst
        (λ b.
          (if b
            then page_of (get_param (codes "cursor") ps)
            else failure (codes "INVALID_CURSOR") true)
          ≡ page xs next)
        e h)
]

Shown-chosen :
    (q : TaskListQuery) (xs : List Doc) (next : Option Text)
    → Shown (codes "u1") serve (filters (codes "u1") serve q) xs next
    → filters (codes "u1") serve q ≡ chosen
Shown-chosen q xs next (first_page e) =
    sym (delete-build q (codes "u1") (codes "25")) ∙ serve_page _ _ _ e
Shown-chosen q xs next (more_pages before e) = Shown-chosen q _ _ before

serve-IsBound : IsBound (codes "u1") serve
serve-IsBound q q' xs ys cursor next filled shown e =
    Shown-chosen q xs (some cursor) shown
    ∙ sym (
        sym (delete-build q' (codes "u1") (codes "25"))
        ∙ sym (delete-set_filled (codes "cursor") cursor (filters (codes "u1") serve q'))
        ∙ serve_page _ _ _ e)

-- A search that is withdrawn, and the answer of a request that it has superseded.
abbrev events : List (Event Text (codes "u1") serve)
events =
    Event.timer_fires
    ∷ Event.searches (codes "a")
    ∷ Event.escapes
    ∷ Event.timer_fires
    ∷ Event.served 0
    ∷ Event.served 0
    ∷ Event.presses_more
    ∷ Event.timer_fires
    ∷ Event.served 0
    ∷ []

abbrev last : TaskList Text
last =
    run Text (codes "u1") serve events
      (mount Text (codes "u1") serve (default_task_list_query, false))

at_rest : (last.loading ≡ false) × (last.first_error ≡ none) × (last.append_error ≡ false)
unfolding run step mount fire take_answer take_page restart start_first on_search on_escape on_more
    requery apply_query load_next request_params serve build_task_list_request_params get_param
    set_param api_owner_param delete lookup text_eq trim
at_rest = (refl, refl, refl)

run-Shown_example :
    Shown (codes "u1") serve (filters (codes "u1") serve last.query) last.items last.next_cursor
run-Shown_example =
    run-Shown (codes "u1") serve (default_task_list_query, false) events serve-IsBound at_rest.0
      at_rest.1 at_rest.2

last_items : last.items ≡ task (codes "t1") ∷ task (codes "t2") ∷ []
unfolding run step mount fire take_answer take_page restart start_first on_search on_escape on_more
    requery apply_query load_next request_params serve build_task_list_request_params get_param
    set_param api_owner_param delete lookup text_eq trim
last_items = refl

abbrev fired : TaskList Text
fired =
    run Text (codes "u1") serve (Event.timer_fires ∷ [])
      (mount Text (codes "u1") serve (default_task_list_query, false))

fired_loading : fired.loading ≡ true
unfolding run step mount fire
fired_loading = refl

run-IsPending_example : IsPending (codes "u1") serve fired.request_gen fired.asked fired.timer
run-IsPending_example =
    run-IsPending (codes "u1") serve (default_task_list_query, false) (Event.timer_fires ∷ [])
      serve-IsBound fired_loading

abbrev invalid_twice : List (Event Text (codes "u1") serve)
invalid_twice = rounds (codes "u1") serve 2 (codes "INVALID_CURSOR")

rounds_loading_example :
    ((run Text
        (codes "u1")
        serve
        invalid_twice
        (mount Text (codes "u1") serve (default_task_list_query, false))).loading
      ≡ true)
    × ((run Text
          (codes "u1")
          serve
          invalid_twice
          (mount Text (codes "u1") serve (default_task_list_query, false))).first_error
        ≡ none)
    × ((run Text
          (codes "u1")
          serve
          invalid_twice
          (mount Text (codes "u1") serve (default_task_list_query, false))).request_gen
        ≡ 5)
rounds_loading_example =
    rounds_loading (codes "u1") serve 2 (codes "INVALID_CURSOR") (default_task_list_query, false)

last-foot : foot Text last ≡ all_loaded
unfolding foot run step mount fire take_answer take_page restart start_first on_search on_escape
    on_more requery apply_query load_next request_params serve build_task_list_request_params
    get_param set_param api_owner_param delete lookup text_eq trim
last-foot = refl

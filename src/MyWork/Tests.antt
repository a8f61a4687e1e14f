-- ===== src/MyWork/Tests.antt =====
-- web/src/app/MyWork.tsx at concrete runs.
use accp.Prelude.{◌≡◌, refl, true, false, not, List, [], ◌∷◌, none, some, any}
use accp.Text.{Text, codes}
use accp.MyWork.{
  WorkQueue, loading_view, Work, thrown, Event, polls, answers, run, step, mount, view, refresh,
  take, my_work_view_state,
}
use accp.MyWork.Views.{view-run}

abbrev nothing_to_do : WorkQueue
nothing_to_do = record {
  review = [];
  approval = [];
  blocked = [];
  checked_at = codes "2026-01-01T00:00:00Z";
}

-- A poll that fails before the first load has ended.
abbrev early : List (Event Text)
early = polls ∷ answers 1 (thrown (codes "offline")) ∷ []

early-view : view Text (run Text early (mount Text)) ≡ loading_view
unfolding run step mount refresh take my_work_view_state
early-view = refl

view-run_example : any not (run Text early (mount Text)).asked ≡ true
view-run_example = view-run Text early early-view

abbrev loaded : Work Text
loaded = record { queue = some nothing_to_do; error = none; loading = false; asked = true ∷ [] }

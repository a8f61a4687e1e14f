-- ===== src/MyWork.antt =====
-- web/src/app/MyWork.tsx: the user's work in all projects. The requests on their way are part of
-- the state, by whether they are silent, and are answered in any order.
pub mod Views
mod Tests
use accp.Prelude.{
  ℕ, zero, suc, ◌+◌, Bool, true, false, not, ◌&&◌, ◌||◌, List, [], ◌∷◌, ◌++◌, Option, none, some,
  if◌then◌else◌, ◌==◌, length, get?, delete_at,
}
use accp.Text.{Text, codes}
use accp.Routing.{Route, project, tasks, route_path}

pub record WorkTaskItem : Type 0 where
  pub project_id : Text
  pub project_name : Text
  pub task_id : Text
  pub title : Text
  pub status : Text
  pub waiting_since : Text

pub record WorkApprovalItem : Type 0 where
  pub project_id : Text
  pub project_name : Text
  pub approval_id : Text
  pub invocation_id : Text
  pub task_id : Option Text
  pub title : Text
  pub waiting_since : Text

pub record WorkQueue : Type 0 where
  pub review : List WorkTaskItem
  pub approval : List WorkApprovalItem
  pub blocked : List WorkTaskItem
  pub checked_at : Text

-- `encode` is `encodeURIComponent`.
pub task_href : (encode : Text → Text) → WorkTaskItem → Text
task_href encode item = route_path encode (project item.project_id tasks (some item.task_id) false)

pub approval_href : (encode : Text → Text) → WorkApprovalItem → Text
approval_href encode item = codes "/projects/" ++ (encode item.project_id ++ codes "/approvals")

pub data ViewState : Type 0 where
  loading_view : ViewState
  full_error : ViewState
  empty : ViewState
  ready : ViewState
  partial_error : ViewState

abbrev pub total : WorkQueue → ℕ
total q = length q.review + length q.approval + length q.blocked

abbrev pub is_loaded : Option WorkQueue → Bool
is_loaded none = false
is_loaded (some q) = true

module _ (Err : Type 0) where
  pub my_work_view_state :
      (queue : Option WorkQueue) → (error : Option Err) → (loading : Bool) → ViewState
  my_work_view_state (some q) (some e) loading = partial_error
  my_work_view_state (some q) none loading = if total q == 0 then empty else ready
  my_work_view_state none (some e) loading = if not loading then full_error else loading_view
  my_work_view_state none none loading = loading_view

  -- `queue` is `data`, which `dataRef` mirrors.
  pub record Work : Type 0 where
    pub queue : Option WorkQueue
    pub error : Option Err
    pub loading : Bool
    pub asked : List Bool

  -- `refresh`, up to its request
  pub refresh : (silent : Bool) → Work → Work
  refresh silent s = record s { loading = s.loading || not silent; asked = s.asked ++ silent ∷ [] }

  -- What the request gives, or throws.
  pub data Answer : Type 0 where
    queue_of : WorkQueue → Answer
    thrown : Err → Answer

  -- `refresh`, behind its request
  pub take : (silent : Bool) → Answer → Work → Work
  take silent (queue_of q) s = record s {
    queue = some q;
    error = none;
    loading = s.loading && silent;
  }
  take silent (thrown e) s = record s {
    error = if not silent || is_loaded s.queue then some e else s.error;
    loading = s.loading && silent;
  }

  -- `answers k` answers the request at place `k` of those on their way.
  pub data Event : Type 0 where
    polls : Event
    retries : Event
    answers : ℕ → Answer → Event

  abbrev pub answered : Option Bool → ℕ → Answer → Work → Work
  answered none k a s = s
  answered (some silent) k a s = take silent a (record s { asked = delete_at k s.asked })

  pub step : Event → Work → Work
  unfolding refresh take
  step polls s = refresh true s
  step retries s = refresh false s
  step (answers k a) s = answered (get? k s.asked) k a s

  pub run : List Event → Work → Work
  unfolding step
  run [] s = s
  run (e ∷ es) s = run es (step e s)

  -- The page when it is mounted, its first request on its way.
  pub mount : Work
  unfolding refresh
  mount = refresh false (record { queue = none; error = none; loading = true; asked = [] })

  abbrev pub view : Work → ViewState
  view s = my_work_view_state s.queue s.error s.loading

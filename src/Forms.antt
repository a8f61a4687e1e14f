-- ===== src/Forms.antt =====
-- web/src/ui.tsx: the form with a safe retry, and web/src/tasks/CreateTask.tsx, which submits one.
-- `Data` is what a `FormData` holds, `uuid n` the result of the `n`th call of `crypto.randomUUID`.
pub mod Once
mod Tests
use accp.Prelude.{
  ℕ, zero, suc, ◌+◌, Bool, true, false, not, ◌&&◌, ◌||◌, List, [], ◌∷◌, ◌++◌, map, Option, none,
  some, if◌then◌else◌, ltb, any, filter, length,
}
use accp.Text.{Text, codes, text_eq, is_empty, trim, split}

-- What the action gives, or throws.
pub data Outcome (Err : Type 0) : Type 0 where
  done : (replayed : Bool) → (keep_open : Bool) → Outcome Err
  unknown_result : Err → Outcome Err
  failed : Err → Outcome Err

module _ (Data Err : Type 0) where
  -- `dones` counts the calls of `onDone`, `sent` lists the arguments of the action.
  pub record Form : Type 0 where
    pub busy : Bool
    pub pending : Bool
    pub error : Option Err
    pub timeouts : ℕ
    pub waiting : Bool
    pub replayed : Bool
    pub completed : Bool
    pub attempt : Option (Data × Text)
    pub uuids : ℕ
    pub dones : ℕ
    pub sent : List (Data × Option Text)

  pub new_form : Form
  new_form = record {
    busy = false;
    pending = false;
    error = none;
    timeouts = 0;
    waiting = false;
    replayed = false;
    completed = false;
    attempt = none;
    uuids = 0;
    dones = 0;
    sent = [];
  }

  module _ (uuid : ℕ → Text) (safe_retry : Bool) where
    -- The attempt that is made, up to the call of the action.
    abbrev pub attempting : Option (Data × Text) → Data → Form → Form
    attempting (some (kept, key)) fields s = record s { sent = s.sent ++ (kept, some key) ∷ [] }
    attempting none fields s =
        if safe_retry
        then record s {
          attempt = some (fields, uuid s.uuids);
          uuids = suc s.uuids;
          sent = s.sent ++ (fields, some (uuid s.uuids)) ∷ [];
        }
        else record s { sent = s.sent ++ (fields, none) ∷ [] }

    -- `run`, up to its wait for the action
    pub begin : Data → Form → Form
    begin fields s =
        if s.pending || s.replayed || s.completed
        then s
        else attempting s.attempt fields (record s { pending = true; busy = true; error = none })

    -- the `finally` of `run`
    abbrev pub settled : Form → Form
    settled s = record s { pending = false; busy = false; waiting = false }

    -- `run`, behind the action
    pub finish : Outcome Err → Form → Form
    finish (done replayed keep_open) s = settled (record s {
      timeouts = 0;
      attempt = none;
      completed = keep_open;
      replayed = s.replayed || (safe_retry && replayed);
      dones =
          if safe_retry && replayed then s.dones else (if keep_open then s.dones else suc s.dones);
    })
    finish (unknown_result e) s = settled (
        if safe_retry
        then record s { timeouts = suc s.timeouts }
        else record s { timeouts = 0; attempt = none; error = some e })
    finish (failed e) s = settled (record s { timeouts = 0; attempt = none; error = some e })

    -- The button that tries again.
    pub retry : Form → Form
    unfolding begin
    retry s = elim s.attempt [ none ↦ s | some a ↦ begin a.0 s ]

    -- The timer of the effect that follows `busy`.
    pub wait_long : Form → Form
    wait_long s = if s.busy && safe_retry then record s { waiting = true } else s

    -- Whether the fields and the button are disabled.
    pub is_disabled : Form → Bool
    is_disabled s = s.busy || (safe_retry && ltb 0 s.timeouts) || s.replayed || s.completed

-- The fields of a new task, and what the action does with them.
pub record NewTask : Type 0 where
  pub title : Text
  pub objective : Text
  pub owner : Text
  pub repo : Text
  pub criteria : Text
  pub contexts : List Text

pub data Refusal (Err : Type 0) : Type 0 where
  no_criteria : Refusal Err
  no_contexts : Refusal Err
  thrown : Err → Refusal Err

-- The lines of the criteria that are not blank.
pub criteria_lines : Text → List Text
criteria_lines criteria = filter (λ line. not (is_empty line)) (map trim (split 10 criteria))

abbrev no_texts : List Text → Bool
no_texts [] = true
no_texts (_ ∷ _) = false

-- What the call for a new task gives.
pub data Created (Err : Type 0) : Type 0 where
  created : (replayed : Bool) → Created Err
  lost : Err → Created Err
  refused : Err → Created Err

abbrev after_call : {Err : Type 0} → Created Err → (refreshed : Bool) → Outcome (Refusal Err)
after_call (created replayed) refreshed = done replayed (not refreshed)
after_call (lost e) refreshed = unknown_result (thrown e)
after_call (refused e) refreshed = failed (thrown e)

-- The action: `call` is what the server answers, `refreshed` whether the refresh behind it succeeds.
pub create_task :
    {Err : Type 0} → NewTask → (call : Created Err) → (refreshed : Bool) → Outcome (Refusal Err)
unfolding criteria_lines
create_task t call refreshed =
    if no_texts (criteria_lines t.criteria)
    then failed no_criteria
    else (if no_texts t.contexts then failed no_contexts else after_call call refreshed)

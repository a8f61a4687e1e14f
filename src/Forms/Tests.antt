-- ===== src/Forms/Tests.antt =====
-- web/src/ui.tsx and web/src/tasks/CreateTask.tsx at concrete runs.
use accp.Prelude.{ℕ, ◌+◌, ◌≤◌, ◌≡◌, refl, true, false, List, [], ◌∷◌, length, ltb}
use accp.Text.{Text, codes, text_eq, split, cons_part, trim}
use accp.Forms.{begin, finish, retry, new_form, NewTask, criteria_lines}
use accp.Forms.Once.{Event, step, run, at_first, one_if, run-created}

abbrev uuid : ℕ → Text
uuid n = n ∷ []

-- A lost answer and a retry that is answered as a repetition.
abbrev retried : List (Event Text ℕ uuid)
retried =
    Event.submits (codes "a") ∷ Event.loses 0 true ∷ Event.retries ∷ Event.confirms true false ∷ []

retried-run :
    (length (run Text ℕ uuid retried (at_first Text ℕ uuid)).created ≡ 1)
    × ((run Text ℕ uuid retried (at_first Text ℕ uuid)).form.replayed ≡ true)
unfolding run step at_first new_form begin finish retry text_eq
retried-run = (refl, refl)

run-created_example :
    length (run Text ℕ uuid retried (at_first Text ℕ uuid)).created
    ≤ (run Text ℕ uuid retried (at_first Text ℕ uuid)).confirmed
      + (run Text ℕ uuid retried (at_first Text ℕ uuid)).refused
      + one_if Text ℕ uuid (ltb 0 (run Text ℕ uuid retried (at_first Text ℕ uuid)).form.timeouts)
run-created_example = run-created Text ℕ uuid retried

-- A lost answer, a retry that is refused, and the form sent again: two are created, one confirmed.
abbrev sent_again : List (Event Text ℕ uuid)
sent_again =
    Event.submits (codes "a")
    ∷ Event.loses 0 true
    ∷ Event.retries
    ∷ Event.refuses 401 false false
    ∷ Event.submits (codes "a")
    ∷ Event.confirms false false
    ∷ []

sent_again-run :
    (length (run Text ℕ uuid sent_again (at_first Text ℕ uuid)).created ≡ 2)
    × ((run Text ℕ uuid sent_again (at_first Text ℕ uuid)).confirmed ≡ 1)
unfolding run step at_first new_form begin finish retry text_eq
sent_again-run = (refl, refl)

-- An error of the server behind what was created, and the form sent again.
abbrev broken : List (Event Text ℕ uuid)
broken =
    Event.submits (codes "a")
    ∷ Event.refuses 500 true true
    ∷ Event.submits (codes "a")
    ∷ Event.confirms false false
    ∷ []

broken-run :
    (length (run Text ℕ uuid broken (at_first Text ℕ uuid)).created ≡ 2)
    × ((run Text ℕ uuid broken (at_first Text ℕ uuid)).confirmed ≡ 1)
unfolding run step at_first new_form begin finish retry text_eq
broken-run = (refl, refl)

abbrev task : NewTask
task = record {
  title = codes "T";
  objective = codes "O";
  owner = codes "u1";
  repo = codes "r1";
  criteria = codes " one \n\n two";
  contexts = codes "c1" ∷ [];
}

criteria_run : criteria_lines task.criteria ≡ codes "one" ∷ codes "two" ∷ []
unfolding criteria_lines split cons_part trim text_eq
criteria_run = refl

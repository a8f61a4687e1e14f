-- ===== src/TaskList/Steps/Recovery.antt =====
-- web/src/tasks/Tasks.tsx: a server that calls the cursor invalid again and again.
use accp.Prelude.{
  ℕ, zero, suc, ◌+◌, ◌*◌, ◌≡◌, refl, ap, subst, sym, ◌∙◌, Bool, true, false, List, [], ◌∷◌, none,
  some, ==_iff, if◌then◌else◌, arith,
}
use accp.Text.{Text}
use accp.TaskQuery.{TaskListQuery, Params}
use accp.TaskList.{TaskList, Flight, Answer, fire, take_answer, recover, start_first, restart}
use accp.TaskList.Steps.{Event, step, run, mounting, mount}

module _ {Err : Type 0} (me_id : Text) (serve : Params → Answer Err) where
  -- `n` times the timer runs out and the request is answered with `INVALID_CURSOR`.
  abbrev pub rounds : ℕ → Err → List (Event Err me_id serve)
  rounds zero e = []
  rounds (suc n) e = Event.timer_fires ∷ Event.breaks 0 e true ∷ rounds n e

  -- A list that waits for the first page, its timer running.
  abbrev asking : Flight → TaskList Err → TaskList Err
  asking f s = record s {
    timer = some f;
    asked = [];
    invalid_cursor_retried = false;
    loading = true;
    first_error = none;
    request_gen = f.gen;
  }

  IsAsking : ℕ → TaskList Err → Type 0
  IsAsking gen s = (f : Flight) × (s' : TaskList Err) × (s ≡ asking f s') × (f.gen ≡ gen)

  again : Flight → TaskList Err → TaskList Err
  again f s = recover Err (record (asking f s) { timer = none })

  again-IsAsking :
      (gen : ℕ) (f : Flight) (s : TaskList Err) → f.gen ≡ gen → IsAsking (suc (suc gen)) (again f s)
  unfolding again recover start_first restart IsAsking
  again-IsAsking gen f s e = (_, again f s, refl, ap (λ g. suc (suc g)) e)

  round-IsAsking :
      (e : Err) (gen : ℕ) (s : TaskList Err)
      → IsAsking gen s
      → IsAsking
          (suc (suc gen))
          (step Err me_id serve (Event.breaks 0 e true) (step Err me_id serve Event.timer_fires s))
  unfolding IsAsking step fire take_answer again
  round-IsAsking e gen s (f, s', same, g) =
      subst
        (λ x.
          IsAsking (suc (suc gen)) (
            step Err me_id serve (Event.breaks 0 e true)
              (step Err me_id serve Event.timer_fires x)))
        (sym same)
        (subst
          (λ b. IsAsking (suc (suc gen)) (
            if b
            then recover Err (record (asking f s') { timer = none })
            else record (asking f s') { timer = none }))
          (sym ((==_iff f.gen f.gen).1 refl)) (again-IsAsking gen f s' g))

  rounds-IsAsking :
      (n : ℕ) (e : Err) (gen : ℕ) (s : TaskList Err)
      → IsAsking gen s
      → IsAsking (2 * n + gen) (run Err me_id serve (rounds n e) s)
  unfolding run
  rounds-IsAsking zero e gen s asks = subst (λ g. IsAsking g s) (omega arith) asks
  rounds-IsAsking (suc n) e gen s asks =
      subst (λ g. IsAsking g (run Err me_id serve (rounds (suc n) e) s)) (omega arith)
        (rounds-IsAsking n e (suc (suc gen)) _ (round-IsAsking e gen s asks))

  -- A server that answers `INVALID_CURSOR` to every first page is asked again for ever: after any
  -- number of such answers the list is loading and shows no error, and its timer runs for another
  -- request, the next generation but one for each answer.
  pub rounds_loading :
      (n : ℕ) (e : Err) (parsed : TaskListQuery × Bool)
      → ((run Err me_id serve (rounds n e) (mount Err me_id serve parsed)).loading ≡ true)
        × ((run Err me_id serve (rounds n e) (mount Err me_id serve parsed)).first_error ≡ none)
        × ((run Err me_id serve (rounds n e) (mount Err me_id serve parsed)).request_gen
            ≡ 2 * n + 1)
  unfolding IsAsking mount
  rounds_loading n e (query, normalized) =
      let start : TaskList Err = mounting Err me_id serve (query, normalized) in
      let (f, s, same, g) =
        rounds-IsAsking n e 1 _
          (record { gen = 1; query = query; intent = start.intent }, start, refl, refl) in
      (
        ap (λ (x : TaskList Err). x.loading) same,
        ap (λ (x : TaskList Err). x.first_error) same,
        ap (λ (x : TaskList Err). x.request_gen) same ∙ g,
      )

-- ===== src/ProjectData/Steps/Late.antt =====
-- web/src/app/useProjectData.ts: a refresh of a project that is no longer selected.
use accp.Prelude.{suc, ◌≤◌, ◌<◌, ◌≡◌, refl, Bool, true, false, [], ◌∷◌, ◌++◌, some, ==_iff, arith}
use accp.Text.{Text, is_empty}
use accp.ProjectData.{Content, full, Request, Answer, Console, refresh_as, end_refresh}
use accp.ProjectData.Steps.{answer}
use accp.ProjectData.Steps.Stale.{error_after, answer_old}

module _ {Err : Type 0} where
  -- the request of a refresh of a project
  abbrev pub late_request : (of_id me : Text) → Console Err → Request
  late_request of_id me s = record {
    generation = suc s.refresh_generation;
    project_id = of_id;
    kind = full me;
  }

  -- The state behind a refresh of a project and its answer.
  abbrev pub behind_late : (of_id me : Text) → Content → (now : Text) → Console Err → Console Err
  behind_late of_id me c now s =
      end_refresh Err (late_request of_id me s) me c now (refresh_as Err of_id (some me) s)

module _ {Err : Type 0} (le : Text → Text → Bool) (back : Text → Text) where
  -- A refresh of any project, also of another than the one that is selected, as one makes it that has
  -- waited while the selection changed, takes the newest generation. Its answer is shown: the data of
  -- its project are marked as loaded, and the selection stays what it is. An answer to a request that
  -- was on its way before changes nothing after that but the error that is shown.
  pub refresh_as-late :
      (s : Console Err) (of_id me : Text) (c : Content) (now : Text) (r : Request) (a : Answer Err)
      (now' : Text)
      → is_empty of_id ≡ false
      → r.generation ≤ s.refresh_generation
      → ((refresh_as Err of_id (some me) s).asked ≡ s.asked ++ late_request of_id me s ∷ [])
        × ((behind_late of_id me c now s).loaded ≡ true)
        × ((behind_late of_id me c now s).data_project_id ≡ of_id)
        × ((behind_late of_id me c now s).content.tasks ≡ c.tasks)
        × ((behind_late of_id me c now s).project_id ≡ s.project_id)
        × (answer Err le back r.kind r a now' (behind_late of_id me c now s)
            ≡ record (behind_late of_id me c now s) {
              error = error_after a (behind_late of_id me c now s).error;
            })
  unfolding end_refresh
  refresh_as-late s of_id me c now r a now' filled old =
      let same = (==_iff (suc s.refresh_generation) (suc s.refresh_generation)).1 refl in
      let newer : r.generation < (behind_late of_id me c now s).refresh_generation =
        rw (filled, same) (omega (arith, old)) in
      (
        rw filled refl,
        rw (filled, same) refl,
        rw (filled, same) refl,
        rw (filled, same) refl,
        rw (filled, same) refl,
        answer_old le back r.kind r a now' (behind_late of_id me c now s) newer,
      )

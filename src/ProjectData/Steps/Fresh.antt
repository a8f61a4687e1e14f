-- ===== src/ProjectData/Steps/Fresh.antt =====
-- The data that are shown are those of the project that is selected, whatever order the answers
-- come in.
use accp.Prelude.{
  suc, ◌≡◌, refl, sym, ap, subst, ◌≢◌, ◌⊎◌, inl, inr, Bool, true, false, not, ◌&&◌, ◌||◌, List, [],
  ◌∷◌, Option, none, some, ◌==◌, any, get?, delete_at, All, All-delete_at, All-get?, ==_iff, arith,
  Bool-cases, Option-cases,
}
use accp.Text.{Text, text_eq, text_eq_iff, is_empty}
use accp.Api.{or_else}
use accp.Routing.{Route, project, work}
use accp.ProjectData.{
  Doc, Kind, full, changes, Request, Answer, all_data, changed_data, thrown, Console, ask,
  refresh_as, ask_changes, refresh_changes, end_refresh,
}
use accp.ProjectData.Steps.{
  end_changes, answer, commit, route_among, on_route, start, reload_projects, reset_project_data,
  Event, step, run, initial, has_id,
}
use accp.ProjectData.Steps.Requests.{
  OfProject, Fits, Older, IsValid, all_before, refit, all_later, ask-IsValid, refresh-IsValid,
  restart-IsValid,
}

module _ {Err : Type 0} (le : Text → Text → Bool) (back : Text → Text) where
  -- A step that changes only the projects, the flag and the selection.
  abbrev moved : List Doc → Bool → Text → Console Err → Console Err
  moved list unavailable id s = record s {
    projects = list;
    project_unavailable = unavailable;
    project_id = id;
  }

  commit-IsValid :
      (list : List Doc) (unavailable : Bool) (id : Text) (s : Console Err)
      → IsValid s
      → IsValid (commit Err le back s (moved list unavailable id s))
  commit-IsValid list unavailable id s v = elim (Bool-cases (text_eq s.project_id id)) [
    | inl e ↦
        let same = (text_eq_iff s.project_id id).0 e in
        rw e (record {
          asked =
              subst (λ i. All (Fits s.refresh_generation i s.data_project_id) s.asked) same v.asked;
          checked = subst (λ i. s.last_task_check ≢ [] → s.data_project_id ≡ i) same v.checked;
          shown = subst (λ i. s.loaded ≡ true → (s.data_project_id ≡ i) ⊎ (i ≡ [])) same v.shown;
        })
    | inr e ↦
        rw e
          (restart-IsValid le back (moved list unavailable id s) (all_before _ _ _ s.asked v.asked))
  ]

  abbrev Moves : Console Err → Console Err → Type 0
  Moves s s' =
      (list : List Doc) × (unavailable : Bool) × (id : Text) × (s' ≡ moved list unavailable id s)

  route_among-Moves :
      (route : Route) (list : List Doc) (s : Console Err)
      → Moves s (route_among Err le back route list s).1
  unfolding route_among
  route_among-Moves (work true) list s = (_, _, _, refl)
  route_among-Moves (project _ _ _ true) list s = (_, _, _, refl)
  route_among-Moves (work false) [] s = (_, _, _, refl)
  route_among-Moves (project _ _ _ false) [] s = (_, _, _, refl)
  route_among-Moves (work false) (p ∷ ps) s = (_, _, _, refl)
  route_among-Moves (project [] _ _ false) (p ∷ ps) s = (_, _, _, refl)
  route_among-Moves (project (c ∷ id) _ _ false) (p ∷ ps) s = (_, _, _, refl)

  commit-Moves : (s s' : Console Err) → IsValid s → Moves s s' → IsValid (commit Err le back s s')
  commit-Moves s s' v (list, unavailable, id, e) =
      subst (λ t. IsValid (commit Err le back s t)) (sym e) (commit-IsValid list unavailable id s v)

  refresh_as-project_id :
      (of_id : Text) (me : Option Text) (s : Console Err)
      → (refresh_as Err of_id me s).project_id ≡ s.project_id
  refresh_as-project_id of_id me s = elim (Bool-cases (is_empty of_id)) [
    | inl e ↦ rw e refl
    | inr e ↦ rw e (asked_project me)
  ]
    where
      asked_project :
          (me : Option Text)
          → (ask Err of_id me full
              (record s { refresh_generation = suc s.refresh_generation })).project_id
            ≡ s.project_id
      asked_project none = refl
      asked_project (some me) = refl

  reload_projects-IsValid :
      (me id : Option Text) (list : List Doc) (s : Console Err)
      → IsValid s
      → IsValid (commit Err le back s (reload_projects Err le back s.project_id me id list s).1)
  unfolding reload_projects
  reload_projects-IsValid me id list s v = elim (Bool-cases (is_empty (or_else id []))) [
    | inl e ↦
        let listed : Console Err = record s { projects = list } in
        let after : Console Err = refresh_as Err s.project_id me listed in
        let same : text_eq s.project_id after.project_id ≡ true =
          (text_eq_iff s.project_id after.project_id).1
            (sym (refresh_as-project_id s.project_id me listed)) in
        rw e (
          rw same (
            refresh-IsValid listed me
              (record { asked = v.asked; checked = v.checked; shown = v.shown })))
    | inr e ↦ rw e (commit-IsValid list false (or_else id []) s v)
  ]

  refresh_changes-IsValid : (s : Console Err) → IsValid s → IsValid (refresh_changes Err back s)
  unfolding refresh_changes
  refresh_changes-IsValid s v =
      elim (Bool-cases (is_empty s.project_id || is_empty s.last_task_check)) [
        | inl e ↦ rw e v
        | inr e ↦ rw e (asks s.me (λ h. some_check e (ap is_empty h)))
      ]
    where
      some_check :
          is_empty s.project_id || is_empty s.last_task_check ≡ false
          → is_empty s.last_task_check ≡ true
          → ⊥
      some_check e l = ground (arith, e, l)

      asks : (me : Option Text) → s.last_task_check ≢ [] → IsValid (ask_changes Err back me s)
      asks none h = v
      asks (some me) h =
          ask-IsValid s (some me) (λ me. changes (back s.last_task_check))
            (all_before _ _ _ s.asked v.asked) v.checked v.shown (λ u. v.checked h)

  answer-IsValid :
      (kind : Kind) (r : Request) (a : Answer Err) (now : Text) (s : Console Err)
      → IsValid s
      → (r.generation ≡ s.refresh_generation
          → (r.project_id ≡ s.project_id) × OfProject s.project_id s.data_project_id kind)
      → IsValid (answer Err le back kind r a now s)
  unfolding answer end_refresh end_changes
  answer-IsValid (full me) r (thrown e) now s v f = record {
    asked = v.asked;
    checked = v.checked;
    shown = v.shown;
  }
  answer-IsValid (changes since) r (thrown e) now s v f = record {
    asked = v.asked;
    checked = v.checked;
    shown = v.shown;
  }
  answer-IsValid (full me) r (changed_data ds w) now s v f = v
  answer-IsValid (changes since) r (all_data c) now s v f = v
  answer-IsValid (full me) r (all_data c) now s v f =
      elim (Bool-cases (r.generation == s.refresh_generation)) [
        | inl e ↦ rw e (
            let same = (f ((==_iff r.generation s.refresh_generation).0 e)).0 in
            record {
              asked = refit _ _ _ _ s.asked same v.asked;
              checked = λ ne. same;
              shown = λ l. inl same;
            })
        | inr e ↦ rw e v
      ]
  answer-IsValid (changes since) r (changed_data ds w) now s v f =
      elim (Bool-cases (r.generation == s.refresh_generation)) [
        | inl e ↦
            rw e (record {
              asked = v.asked;
              checked = λ ne. (f ((==_iff _ _).0 e)).1;
              shown = v.shown;
            })
        | inr e ↦ rw e v
      ]

  start_all_before :
      (requested : Route) (me : Text) (list : List Doc) (s : Console Err)
      → All (Older s.refresh_generation) s.asked
      → All
          (Older (start Err le back requested me list s).1.refresh_generation)
          (start Err le back requested me list s).1.asked
  unfolding start
  start_all_before (work _) me list s older = older
  start_all_before (project id _ _ true) me list s older = older
  start_all_before (project id _ _ false) me list s older =
      elim (Bool-cases (not (is_empty id) && not (any (has_id id) list))) [
        | inl e ↦ rw e older
        | inr e ↦ rw e older
      ]

  -- A refresh that begins is one of the project that is selected then.
  unfoldable pub IsCurrent : Event Err le back → Console Err → Type 0
  IsCurrent (Event.reloads of_id of_me id list) s = of_id ≡ s.project_id
  IsCurrent (Event.refreshes of_id of_me) s = of_id ≡ s.project_id
  IsCurrent _ s = Unit

  unfoldable pub AreCurrent : List (Event Err le back) → Console Err → Type 0
  unfolding IsCurrent
  AreCurrent [] s = Unit
  AreCurrent (e ∷ es) s = IsCurrent e s × AreCurrent es (step Err le back e s)

  step-IsValid :
      (e : Event Err le back) (s : Console Err)
      → IsCurrent e s
      → IsValid s
      → IsValid (step Err le back e s)
  unfolding step on_route reset_project_data IsCurrent
  step-IsValid (Event.starts requested me list) s h v =
      restart-IsValid le back (start Err le back requested me list s).1
        (start_all_before requested me list s (all_before _ _ _ s.asked v.asked))
  step-IsValid (Event.routes route) s h v =
      commit-Moves s _ v (route_among-Moves route s.projects s)
  step-IsValid (Event.selects id) s h v = commit-IsValid s.projects s.project_unavailable id s v
  step-IsValid (Event.reloads of_id me id list) s h v =
      subst (λ i. IsValid (commit Err le back s (reload_projects Err le back i me id list s).1))
        (sym h) (reload_projects-IsValid me id list s v)
  step-IsValid (Event.refreshes of_id me) s h v =
      subst (λ i. IsValid (refresh_as Err i me s)) (sym h) (refresh-IsValid s me v)
  step-IsValid Event.polls s h v = refresh_changes-IsValid s v
  step-IsValid (Event.answers k a now) s h v = elim (Option-cases (get? k s.asked)) [
    | inl e ↦ rw e v
    | inr (r, e) ↦ rw e (
        answer-IsValid r.kind r a now (record s { asked = delete_at k s.asked })
          (record {
            asked = All-delete_at _ k s.asked v.asked;
            checked = v.checked;
            shown = v.shown;
          })
          (All-get? _ k s.asked v.asked e).current)
  ]
  step-IsValid Event.signs_out s h v =
      restart-IsValid le back (record (reset_project_data Err le back s) { me = none })
        (all_later _ s.asked (all_before _ _ _ s.asked v.asked))

  run-IsValid :
      (es : List (Event Err le back)) (s : Console Err)
      → AreCurrent es s
      → IsValid s
      → IsValid (run Err le back es s)
  unfolding run AreCurrent
  run-IsValid [] s h v = v
  run-IsValid (e ∷ es) s (h, hs) v = run-IsValid es (step Err le back e s) hs (step-IsValid e s h v)

  -- Whatever happens to the hook, and in whatever order the answers to its requests come, as long as
  -- every refresh that begins is one of the project that is selected then: data that are marked as
  -- loaded are those of the project that is selected, if one is, and no request on its way that is
  -- still to be taken is for another project.
  pub run-initial-IsValid :
      (es : List (Event Err le back))
      → AreCurrent es (initial Err)
      → IsValid (run Err le back es (initial Err))
  run-initial-IsValid es h =
      run-IsValid es (initial Err) h
        (record { asked = tt; checked = λ ne. absurd (ne refl); shown = λ e. cc e })

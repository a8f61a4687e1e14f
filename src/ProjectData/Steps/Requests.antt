-- ===== src/ProjectData/Steps/Requests.antt =====
-- The requests on their way, and what a new one leaves of them.
use accp.Prelude.{
  ℕ, suc, ◌≤◌, ◌≡◌, refl, ◌≢◌, ◌⊎◌, inl, inr, Bool, true, false, List, [], ◌∷◌, Option, none, some,
  All, All-append, arith, Bool-cases,
}
use accp.Text.{Text, is_empty}
use accp.ProjectData.{Kind, full, changes, Request, Console, ask, refresh_as, refresh}
use accp.ProjectData.Steps.{restart}

-- A request for changes is made only where the data are those of the project.
abbrev pub OfProject : (id data_id : Text) → Kind → Type 0
OfProject id data_id (full me) = Unit
OfProject id data_id (changes since) = data_id ≡ id

-- A request on its way is not newer than the generation, and where it is not older, then it is for
-- the project that is selected.
pub record Fits (generation : ℕ) (id data_id : Text) (r : Request) : Type 0 where
  pub before : r.generation ≤ generation
  pub current : r.generation ≡ generation → (r.project_id ≡ id) × OfProject id data_id r.kind

abbrev pub Older : ℕ → Request → Type 0
Older generation r = r.generation ≤ generation

module _ {Err : Type 0} where
  pub record IsValid (s : Console Err) : Type 0 where
    pub asked : All (Fits s.refresh_generation s.project_id s.data_project_id) s.asked
    pub checked : s.last_task_check ≢ [] → s.data_project_id ≡ s.project_id
    pub shown : s.loaded ≡ true → (s.data_project_id ≡ s.project_id) ⊎ (s.project_id ≡ [])

pub all_before :
    (g : ℕ) (id data_id : Text) (rs : List Request) → All (Fits g id data_id) rs → All (Older g) rs
all_before g id data_id [] h = tt
all_before g id data_id (r ∷ rs) (h, hs) = (h.before, all_before g id data_id rs hs)

-- In a new generation every request is an older one.
pub bump :
    (g : ℕ) (id data_id : Text) (rs : List Request)
    → All (Older g) rs
    → All (Fits (suc g) id data_id) rs
bump g id data_id [] h = tt
bump g id data_id (r ∷ rs) (h, hs) = (
  record { before = omega (arith, h); current = λ e. absurd (omega (arith, e, h)) },
  bump g id data_id rs hs,
)

-- The same where the data are those of the project after all.
pub refit :
    (g : ℕ) (id data_id data_id' : Text) (rs : List Request)
    → data_id' ≡ id
    → All (Fits g id data_id) rs
    → All (Fits g id data_id') rs
refit g id data_id data_id' [] same h = tt
refit g id data_id data_id' (r ∷ rs) same (h, hs) = (
  record { before = h.before; current = λ e. ((h.current e).0, of_project r.kind) },
  refit g id data_id data_id' rs same hs,
)
  where
    of_project : (kind : Kind) → OfProject id data_id' kind
    of_project (full me) = tt
    of_project (changes since) = same

pub all_later : (g : ℕ) (rs : List Request) → All (Older g) rs → All (Older (suc g)) rs
all_later g [] h = tt
all_later g (r ∷ rs) (h, hs) = (omega (arith, h), all_later g rs hs)

module _ {Err : Type 0} where
  -- A request made now, in a new generation.
  pub ask-IsValid :
      (s : Console Err) (me : Option Text) (kind : Text → Kind)
      → All (Older s.refresh_generation) s.asked
      → (s.last_task_check ≢ [] → s.data_project_id ≡ s.project_id)
      → (s.loaded ≡ true → (s.data_project_id ≡ s.project_id) ⊎ (s.project_id ≡ []))
      → ((u : Text) → OfProject s.project_id s.data_project_id (kind u))
      → IsValid (
          ask Err s.project_id me kind (record s { refresh_generation = suc s.refresh_generation }))
  ask-IsValid s none kind older checked shown of_project = record {
    asked = bump _ _ _ s.asked older;
    checked = checked;
    shown = shown;
  }
  ask-IsValid s (some me) kind older checked shown of_project = record {
    asked =
        All-append _ s.asked _ (bump _ _ _ s.asked older)
          (record { before = omega arith; current = λ e. (refl, of_project me) }, tt);
    checked = checked;
    shown = shown;
  }

  refresh-IsValid_of :
      (s : Console Err) (me : Option Text)
      → All (Older s.refresh_generation) s.asked
      → (s.last_task_check ≢ [] → s.data_project_id ≡ s.project_id)
      → (s.loaded ≡ true → (s.data_project_id ≡ s.project_id) ⊎ (s.project_id ≡ []))
      → IsValid (refresh_as Err s.project_id me s)
  refresh-IsValid_of s me older checked shown = elim (Bool-cases (is_empty s.project_id)) [
    | inl e ↦ rw e (ask-IsValid s none full older checked shown (λ u. tt))
    | inr e ↦ rw e (ask-IsValid s me full older checked shown (λ u. tt))
  ]

  pub refresh-IsValid :
      (s : Console Err) (me : Option Text) → IsValid s → IsValid (refresh_as Err s.project_id me s)
  refresh-IsValid s me v =
      refresh-IsValid_of s me (all_before _ _ _ s.asked v.asked) v.checked v.shown

  pub restart-IsValid :
      (le : Text → Text → Bool) (back : Text → Text) (s : Console Err)
      → All (Older s.refresh_generation) s.asked
      → IsValid (restart Err le back s)
  unfolding restart refresh
  restart-IsValid le back s older =
      refresh-IsValid_of
        (record s {
          refresh_generation = suc s.refresh_generation;
          loaded = false;
          last_task_check = [];
        })
        s.me (all_later _ s.asked older) (λ ne. absurd (ne refl)) (λ e. cc e)

-- ===== src/TaskList/Steps/Valid/Counting.antt =====
-- web/src/tasks/Tasks.tsx: how many of the requests on their way are in force.
use mathlib.Core.Option.{some-injective}
use accp.Prelude.{
  ℕ, zero, suc, ◌≤◌, ◌≡◌, refl, ap, ◌∙◌, Bool, false, List, [], ◌∷◌, ◌++◌, some, ◌==◌, ==_iff, All,
  get?, delete_at, arith,
}
use accp.Text.{Text}
use accp.TaskQuery.{TaskListQuery, Params}
use accp.TaskList.{ListIntent, Flight, Answer}
use accp.TaskList.Steps.Valid.{IsOwn, count}

module _ {Err : Type 0} (me_id : Text) (serve : Params → Answer Err) where
  pub count-delete_at :
      (gen k : ℕ) (fs : List Flight)
      → count me_id serve gen (delete_at k fs) ≤ count me_id serve gen fs
  count-delete_at gen k [] = omega arith
  count-delete_at gen zero (f ∷ fs) = ground arith
  count-delete_at gen (suc k) (f ∷ fs) = ground (arith, count-delete_at gen k fs)

  pub count-delete_at_self :
      (gen k : ℕ) (fs : List Flight) {f : Flight}
      → get? k fs ≡ some f
      → f.gen ≡ gen
      → suc (count me_id serve gen (delete_at k fs)) ≡ count me_id serve gen fs
  count-delete_at_self gen k [] e g = cc
  count-delete_at_self gen zero (f ∷ fs) e g =
      let same : f.gen ≡ gen = ap (λ (x : Flight). x.gen) (some-injective _ _ e) ∙ g in
      rw ((==_iff f.gen gen).1 same) refl
  count-delete_at_self gen (suc k) (f ∷ fs) e g = ground (arith, count-delete_at_self gen k fs e g)

  pub count-delete_at_other :
      (gen k : ℕ) (fs : List Flight) {f : Flight}
      → get? k fs ≡ some f
      → (f.gen == gen) ≡ false
      → count me_id serve gen (delete_at k fs) ≡ count me_id serve gen fs
  count-delete_at_other gen k [] e g = cc
  count-delete_at_other gen zero (f ∷ fs) e g =
      let other : (f.gen == gen) ≡ false =
        ap (λ (x : Flight). x.gen == gen) (some-injective _ _ e) ∙ g in
      rw other refl
  count-delete_at_other gen (suc k) (f ∷ fs) e g =
      ground (arith, count-delete_at_other gen k fs e g)

  pub count_zero :
      (gen : ℕ) (f : Flight) (fs : List Flight)
      → count me_id serve gen (f ∷ fs) ≡ 0
      → ((f.gen == gen) ≡ false) × (count me_id serve gen fs ≡ 0)
  count_zero gen f fs c = ground arith

  pub none-IsOwn :
      (query : TaskListQuery) (intent : ListIntent) (loading : Bool) (gen : ℕ) (fs : List Flight)
      → count me_id serve gen fs ≡ 0
      → All (IsOwn me_id serve query intent loading gen) fs
  none-IsOwn q i l gen [] c = tt
  none-IsOwn q i l gen (f ∷ fs) c =
      let (other, none_left) = count_zero gen f fs c in
      (λ g. cc ((==_iff f.gen gen).1 g, other), none-IsOwn q i l gen fs none_left)

  pub count-append :
      (gen : ℕ) (fs : List Flight) (f : Flight)
      → f.gen ≡ gen
      → count me_id serve gen (fs ++ f ∷ []) ≡ suc (count me_id serve gen fs)
  count-append gen [] f e = rw ((==_iff f.gen gen).1 e) refl
  count-append gen (g ∷ fs) f e = ground (arith, count-append gen fs f e)

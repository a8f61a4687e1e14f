-- ===== src/MyWork/Views.antt =====
-- web/src/app/MyWork.tsx: what the page shows, whatever its requests give and in whatever order.
use accp.Prelude.{
  ℕ, zero, suc, ◌≡◌, refl, ap, ◌∙◌, Bool, true, false, not, ◌&&◌, ◌||◌, List, [], ◌∷◌, ◌++◌, Option,
  none, some, if◌then◌else◌, ◌==◌, any, get?, delete_at, arith, if_cases,
}
use accp.MyWork.{
  WorkQueue, is_loaded, ViewState, loading_view, full_error, total, my_work_view_state, Work,
  refresh, Answer, queue_of, thrown, take, Event, polls, retries, answers, answered, step, run,
  mount, view,
}

any-append : (xs : List Bool) (x : Bool) → any not (xs ++ x ∷ []) ≡ (any not xs || not x)
any-append [] x = ground arith
any-append (y ∷ xs) x = ground (arith, any-append xs x)

-- A silent request that is taken away leaves the others.
any-delete_at :
    (k : ℕ) (xs : List Bool) → get? k xs ≡ some true → any not (delete_at k xs) ≡ any not xs
any-delete_at k [] h = refl
any-delete_at zero (true ∷ xs) h = refl
any-delete_at zero (false ∷ xs) h = cc h
any-delete_at (suc k) (x ∷ xs) h = ap (λ b. not x || b) (any-delete_at k xs h)

-- A view with the groups of the work.
abbrev pub has_groups : ViewState → Bool
has_groups loading_view = false
has_groups full_error = false
has_groups _ = true

module _ (Err : Type 0) where
  abbrev IsKnown : Option WorkQueue → Option Err → Bool → Type 0
  IsKnown none none loading = loading ≡ true
  IsKnown (some q) error loading = q ≡ q
  IsKnown none (some e) loading = e ≡ e

  -- The page is loading only while a request that is not silent is on its way, and it has data or
  -- an error as soon as it is not.
  record IsValid (s : Work Err) : Type 0 where
    asking : s.loading ≡ true → any not s.asked ≡ true
    known : IsKnown s.queue s.error s.loading

  IsKnown-more :
      (q : Option WorkQueue) (e : Option Err) (l b : Bool) → IsKnown q e l → IsKnown q e (l || b)
  IsKnown-more (some q) e l b h = refl
  IsKnown-more none (some e) l b h = refl
  IsKnown-more none none l b h = ground (arith, h)

  IsKnown-thrown :
      (q : Option WorkQueue) (e : Option Err) (l : Bool) (x : Err)
      → IsKnown q e l
      → IsKnown q (if is_loaded q then some x else e) (l && true)
  IsKnown-thrown (some q) e l x h = refl
  IsKnown-thrown none (some e) l x h = refl
  IsKnown-thrown none none l x h = ground (arith, h)

  error-IsKnown : (q : Option WorkQueue) (x : Err) (l : Bool) → IsKnown q (some x) l
  error-IsKnown (some q) x l = refl
  error-IsKnown none x l = refl

  both_true : (a b : Bool) → (a && b) ≡ true → (a ≡ true) × (b ≡ true)
  both_true a b h = ground (arith, h)

  or_true : (l b c : Bool) → (l || b) ≡ true → (l ≡ true → c ≡ true) → (c || b) ≡ true
  or_true true b c h f = ap (λ x. x || b) (f refl)
  or_true false b c h f = ground (arith, h)

  refresh-IsValid : (silent : Bool) (s : Work Err) → IsValid s → IsValid (refresh Err silent s)
  unfolding refresh
  refresh-IsValid silent s v = record {
    asking = λ l.
        any-append s.asked silent ∙ or_true s.loading (not silent) (any not s.asked) l v.asking;
    known = IsKnown-more s.queue s.error s.loading (not silent) v.known;
  }

  take-IsValid :
      (silent : Bool) (a : Answer Err) (k : ℕ) (s : Work Err)
      → get? k s.asked ≡ some silent
      → IsValid s
      → IsValid (take Err silent a (record s { asked = delete_at k s.asked }))
  unfolding take
  take-IsValid true (queue_of q) k s e v = record {
    asking = λ l. any-delete_at k s.asked e ∙ v.asking (both_true s.loading true l).0;
    known = refl;
  }
  take-IsValid true (thrown x) k s e v = record {
    asking = λ l. any-delete_at k s.asked e ∙ v.asking (both_true s.loading true l).0;
    known = IsKnown-thrown s.queue s.error s.loading x v.known;
  }
  take-IsValid false (queue_of q) k s e v = record {
    asking = λ l. cc (both_true s.loading false l).1;
    known = refl;
  }
  take-IsValid false (thrown x) k s e v = record {
    asking = λ l. cc (both_true s.loading false l).1;
    known = error-IsKnown s.queue x (s.loading && false);
  }

  answered-IsValid :
      (o : Option Bool) (k : ℕ) (a : Answer Err) (s : Work Err)
      → get? k s.asked ≡ o
      → IsValid s
      → IsValid (answered Err o k a s)
  answered-IsValid none k a s e v = v
  answered-IsValid (some silent) k a s e v = take-IsValid silent a k s e v

  step-IsValid : (e : Event Err) (s : Work Err) → IsValid s → IsValid (step Err e s)
  unfolding step
  step-IsValid polls s v = refresh-IsValid true s v
  step-IsValid retries s v = refresh-IsValid false s v
  step-IsValid (answers k a) s v = answered-IsValid (get? k s.asked) k a s refl v

  run-IsValid : (es : List (Event Err)) (s : Work Err) → IsValid s → IsValid (run Err es s)
  unfolding run
  run-IsValid [] s v = v
  run-IsValid (e ∷ es) s v = run-IsValid es _ (step-IsValid e s v)

  view-IsKnown :
      (q : Option WorkQueue) (e : Option Err) (l : Bool)
      → IsKnown q e l
      → my_work_view_state Err q e l ≡ loading_view
      → l ≡ true
  unfolding my_work_view_state
  view-IsKnown none none l h shown = h
  view-IsKnown none (some e) true h shown = refl
  view-IsKnown none (some e) false h shown = cc shown
  view-IsKnown (some q) (some e) l h shown = cc shown
  view-IsKnown (some q) none l h shown =
      if_cases (λ v. v ≡ loading_view → l ≡ true) (total q == 0) (λ _ f. cc f) (λ _ f. cc f) shown

  -- Whatever the page is asked and answered, and in whatever order: while it shows that it is
  -- loading, a request that is not a silent poll is on its way, so that it never waits for nothing.
  pub view-run :
      (es : List (Event Err))
      → view Err (run Err es (mount Err)) ≡ loading_view
      → any not (run Err es (mount Err)).asked ≡ true
  unfolding mount refresh
  view-run es shown =
      let v = run-IsValid es (mount Err) (record { asking = λ _. refl; known = refl }) in
      v.asking (
        view-IsKnown (run Err es (mount Err)).queue (run Err es (mount Err)).error
          (run Err es (mount Err)).loading v.known shown)

  answered-loaded :
      (o : Option Bool) (k : ℕ) (a : Answer Err) (s : Work Err)
      → is_loaded s.queue ≡ true
      → is_loaded (answered Err o k a s).queue ≡ true
  unfolding take
  answered-loaded none k a s h = h
  answered-loaded (some silent) k (queue_of q) s h = refl
  answered-loaded (some silent) k (thrown e) s h = h

  run-loaded :
      (es : List (Event Err)) (s : Work Err)
      → is_loaded s.queue ≡ true
      → is_loaded (run Err es s).queue ≡ true
  unfolding run step refresh
  run-loaded [] s h = h
  run-loaded (polls ∷ es) s h = run-loaded es (refresh Err true s) h
  run-loaded (retries ∷ es) s h = run-loaded es (refresh Err false s) h
  run-loaded (answers k a ∷ es) s h = run-loaded es _ (answered-loaded (get? k s.asked) k a s h)

  groups_of :
      (q : Option WorkQueue) (e : Option Err) (l : Bool)
      → is_loaded q ≡ true
      → has_groups (my_work_view_state Err q e l) ≡ true
  unfolding my_work_view_state
  groups_of none e l h = cc h
  groups_of (some q) (some e) l h = refl
  groups_of (some q) none l h =
      if_cases (λ v. has_groups v ≡ true) (total q == 0) (λ _. refl) (λ _. refl)

  -- Once a load has succeeded, the groups stay on the screen whatever is asked and answered behind it:
  -- a failure only adds its warning.
  pub view-loaded :
      (es : List (Event Err)) (s : Work Err)
      → is_loaded s.queue ≡ true
      → has_groups (view Err (run Err es s)) ≡ true
  view-loaded es s h =
      groups_of (run Err es s).queue (run Err es s).error (run Err es s).loading (run-loaded es s h)

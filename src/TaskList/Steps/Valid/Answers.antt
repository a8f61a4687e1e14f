-- ===== src/TaskList/Steps/Valid/Answers.antt =====
-- web/src/tasks/Tasks.tsx: what the timer and the answers do to the list.
use accp.Prelude.{
  ℕ, suc, ◌≤◌, ◌≡◌, refl, sym, ap, ap₂, subst, ◌∙◌, inl, inr, Bool, true, false, not, ◌&&◌, List,
  [], ◌∷◌, ◌++◌, Option, none, some, ◌==◌, ==_iff, if◌then◌else◌, All-append, All-delete_at,
  All-get?, get?, delete_at, arith, Bool-cases, either_way, if_cases,
}
use accp.Text.{Text, codes}
use accp.ProjectData.{Doc}
use accp.TaskQuery.{TaskListQuery, Params, set_filled, build_task_list_request_params, build-cursor}
use accp.TaskList.{
  TaskList, Mode, first, append, is_append, start_first, ListIntent, Flight, Answer, page, failure,
  take_answer, take_page, take_failure, recover, fire, request_params,
}
use accp.TaskList.Steps.{answered}
use accp.TaskList.Steps.Valid.{
  filters, Shown, first_page, more_pages, IsBound, Held, Core, Continues, IsOwn, count, Waits,
  IsPending, IsValid, restart-IsValid,
}
use accp.TaskList.Steps.Valid.Counting.{
  count-delete_at, count-delete_at_self, count-delete_at_other, none-IsOwn, count-append,
}

module _ {Err : Type 0} (me_id : Text) (serve : Params → Answer Err) where
  abbrev Good : TaskList Err → Type 0
  Good = IsValid me_id serve

  rest-IsValid :
      (s : TaskList Err)
      → Core me_id serve s.items s.next_cursor s.request_gen s.asked
      → count me_id serve s.request_gen s.asked ≡ 0
      → s.timer ≡ none
      → s.loading ≡ false
      → (s.first_error ≡ none
          → s.append_error ≡ false
          → Shown me_id serve (filters me_id serve s.query) s.items s.next_cursor)
      → Good s
  rest-IsValid s c none_left no_timer rest shown = record {
    core = c;
    single = omega (arith, none_left);
    waiting =
        subst (Waits me_id serve s.query s.intent s.loading s.request_gen s.asked) (sym no_timer)
          refl;
    own = none-IsOwn me_id serve s.query s.intent s.loading s.request_gen s.asked none_left;
    continues = λ l. cc;
    alive = λ l. cc;
    settled = λ _. shown;
  }

  -- An answer that has come is no longer on its way: what is left of an answer in force.
  record Landed (s : TaskList Err) : Type 0 where
    pub core : Core me_id serve s.items s.next_cursor s.request_gen s.asked
    none_left : count me_id serve s.request_gen s.asked ≡ 0
    no_timer : s.timer ≡ none
    continues : Continues me_id serve s.intent.mode s.intent.cursor s.items s.next_cursor

  abbrev cursor_of : ListIntent → Text
  cursor_of intent = if is_append intent.mode then intent.cursor else []

  abbrev request_of : TaskListQuery → Text → Params
  request_of query cursor = build_task_list_request_params query me_id cursor (codes "25")

  take_page-IsValid :
      (mode : Mode) (batch : List Doc) (next : Option Text) (s : TaskList Err)
      → IsBound me_id serve
      → s.intent.mode ≡ mode
      → Landed s
      → serve (request_of s.query (cursor_of s.intent)) ≡ page batch next
      → Good (take_page Err mode batch next s.query s)
  unfolding take_page Held
  take_page-IsValid first batch next s bound m l served =
      let shown : Shown me_id serve (filters me_id serve s.query) batch next = first_page (
        subst
          (λ d.
            serve (request_of s.query (if is_append d then s.intent.cursor else []))
            ≡ page batch next)
          m served) in
      rest-IsValid (take_page Err first batch next s.query s)
        (record { held = inr (s.query, shown); before = l.core.before }) l.none_left l.no_timer refl
        (λ _ _. shown)
  take_page-IsValid append batch next s bound m l served =
      let (e, filled, (q, before)) =
        subst (λ d. Continues me_id serve d s.intent.cursor s.items s.next_cursor) m l.continues in
      let next_page : serve
            (set_filled (codes "cursor") s.intent.cursor (filters me_id serve s.query))
          ≡ page batch next =
        subst (λ ps. serve ps ≡ page batch next)
          (build-cursor s.query me_id s.intent.cursor (codes "25"))
          (subst
            (λ d.
              serve (request_of s.query (if is_append d then s.intent.cursor else []))
              ≡ page batch next)
            m served) in
      let so_far : Shown me_id serve (filters me_id serve q) s.items (some s.intent.cursor) =
        subst (λ n. Shown me_id serve (filters me_id serve q) s.items n) e before in
      let same = bound q s.query s.items batch s.intent.cursor next filled so_far next_page in
      let shown : Shown me_id serve (filters me_id serve s.query) (s.items ++ batch) next =
        more_pages (subst (λ p. Shown me_id serve p s.items (some s.intent.cursor)) same so_far)
          next_page in
      rest-IsValid (take_page Err append batch next s.query s)
        (record { held = inr (s.query, shown); before = l.core.before }) l.none_left l.no_timer refl
        (λ _ _. shown)

  take_failure-IsValid :
      (mode : Mode) (e : Err) (s : TaskList Err) → Landed s → Good (take_failure Err mode e s)
  unfolding take_failure Held
  take_failure-IsValid first e s l =
      rest-IsValid (take_failure Err first e s) (record { held = inl refl; before = l.core.before })
        l.none_left l.no_timer refl (λ h. cc)
  take_failure-IsValid append e s l =
      rest-IsValid (take_failure Err append e s)
        (record { held = l.core.held; before = l.core.before }) l.none_left l.no_timer refl
        (λ _ h. cc)

  recover-IsValid : (s : TaskList Err) → Landed s → Good (recover Err s)
  unfolding recover start_first Held
  recover-IsValid s l =
      let cleared : TaskList Err = record s {
        invalid_cursor_retried = true;
        cursor_warning = true;
        items = [];
      } in
      restart-IsValid me_id serve
        (record (start_first Err false cleared) { loading = false; selected = [] })
        (record { held = inl refl; before = l.core.before }) refl

  -- The answer is one of the server's pages, or an error.
  abbrev pub IsGenuine : Flight → Answer Err → Type 0
  IsGenuine f (page batch next) = serve (request_params Err me_id f) ≡ page batch next
  IsGenuine f (failure e invalid) = f ≡ f

  pub genuine :
      (f : Flight) (a : Answer Err) → serve (request_params Err me_id f) ≡ a → IsGenuine f a
  genuine f (page batch next) e = e
  genuine f (failure x invalid) e = refl

  in_force-IsValid :
      (f : Flight) (a : Answer Err) (s : TaskList Err)
      → IsBound me_id serve
      → Landed s
      → f.gen ≡ s.request_gen
      → f.query ≡ s.query
      → f.intent ≡ s.intent
      → IsGenuine f a
      → Good (take_answer Err f a s)
  unfolding take_answer request_params
  in_force-IsValid f (page batch next) s bound l g q i served =
      subst
        (λ (p : Bool × TaskListQuery × ListIntent).
          Good (if p.0 then take_page Err p.2.mode batch next p.1 s else s))
        (sym (
          ap (λ b. (b, f.query, f.intent)) ((==_iff f.gen s.request_gen).1 g)
          ∙ ap₂ (λ x y. (true, x, y)) q i))
        (take_page-IsValid s.intent.mode batch next s bound refl l (
          subst
            (λ (p : TaskListQuery × ListIntent).
              serve (request_of p.0 (cursor_of p.1)) ≡ page batch next)
            (ap₂ (λ x y. (x, y)) q i) served))
  in_force-IsValid f (failure e invalid) s bound l g q i served =
      if_cases Good (f.gen == s.request_gen)
        (λ _.
          either_way Good (invalid && not s.invalid_cursor_retried) (recover-IsValid s l)
            (take_failure-IsValid f.intent.mode e s l))
        (λ other. cc ((==_iff f.gen s.request_gen).1 g, other))

  superseded-IsValid :
      (f : Flight) (a : Answer Err) (s : TaskList Err)
      → (f.gen == s.request_gen) ≡ false
      → Good s
      → Good (take_answer Err f a s)
  unfolding take_answer
  superseded-IsValid f (page batch next) s other v =
      if_cases Good (f.gen == s.request_gen) (λ same. cc (same, other)) (λ _. v)
  superseded-IsValid f (failure e invalid) s other v =
      if_cases Good (f.gen == s.request_gen) (λ same. cc (same, other)) (λ _. v)

  Waits-delete_at :
      (query : TaskListQuery) (intent : ListIntent) (loading : Bool) (gen k : ℕ)
      (asked : List Flight) (timer : Option Flight)
      → Waits me_id serve query intent loading gen asked timer
      → Waits me_id serve query intent loading gen (delete_at k asked) timer
  Waits-delete_at query intent loading gen k asked none w = w
  Waits-delete_at query intent loading gen k asked (some f) (g, q, i, l, c) =
      (g, q, i, l, omega (arith, c, count-delete_at me_id serve gen k asked))

  -- While a request in force is on its way there is no timer.
  no_timer :
      (query : TaskListQuery) (intent : ListIntent) (loading : Bool) (gen n : ℕ)
      (asked : List Flight) (timer : Option Flight)
      → Waits me_id serve query intent loading gen asked timer
      → suc n ≡ count me_id serve gen asked
      → timer ≡ none
  no_timer query intent loading gen n asked none w c = refl
  no_timer query intent loading gen n asked (some f) (g, q, i, l, z) c = cc (z, c)

  IsPending-same :
      (gen : ℕ) (asked asked' : List Flight) (timer : Option Flight)
      → count me_id serve gen asked' ≡ count me_id serve gen asked
      → IsPending me_id serve gen asked timer
      → IsPending me_id serve gen asked' timer
  IsPending-same gen asked asked' none same p = same ∙ p
  IsPending-same gen asked asked' (some f) same p = p

  delete_at-IsValid :
      (k : ℕ) (s : TaskList Err)
      → count me_id serve s.request_gen (delete_at k s.asked)
        ≡ count me_id serve s.request_gen s.asked
      → Good s
      → Good (record s { asked = delete_at k s.asked })
  delete_at-IsValid k s kept v = record {
    core = record {
      held = v.core.held;
      before = All-delete_at (λ (f : Flight). f.gen ≤ s.request_gen) k s.asked v.core.before;
    };
    single = omega (arith, v.single, count-delete_at me_id serve s.request_gen k s.asked);
    waiting = Waits-delete_at s.query s.intent s.loading s.request_gen k s.asked s.timer v.waiting;
    own =
        All-delete_at (IsOwn me_id serve s.query s.intent s.loading s.request_gen) k s.asked v.own;
    continues = v.continues;
    alive =
        λ l. IsPending-same s.request_gen s.asked (delete_at k s.asked) s.timer kept (v.alive l);
    settled = v.settled;
  }

  pub answered-IsValid :
      (o : Option Flight) (k : ℕ) (a : Flight → Answer Err) (s : TaskList Err)
      → IsBound me_id serve
      → ((f : Flight) → IsGenuine f (a f))
      → get? k s.asked ≡ o
      → Good s
      → Good (answered Err me_id serve o k a s)
  answered-IsValid none k a s bound real e v = v
  answered-IsValid (some f) k a s bound real e v = elim (Bool-cases (f.gen == s.request_gen)) [
    | inr other ↦ superseded-IsValid f (a f) _ other (
        delete_at-IsValid k s (count-delete_at_other me_id serve s.request_gen k s.asked e other) v)
    | inl same ↦
        let g = (==_iff f.gen s.request_gen).0 same in
        let (q, i, l) =
          All-get? (IsOwn me_id serve s.query s.intent s.loading s.request_gen) k s.asked v.own e
            g in
        let left = count-delete_at_self me_id serve s.request_gen k s.asked e g in
        in_force-IsValid f (a f) (record s { asked = delete_at k s.asked }) bound
          (record {
            core = record {
              held = v.core.held;
              before =
                  All-delete_at (λ (f : Flight). f.gen ≤ s.request_gen) k s.asked v.core.before;
            };
            none_left = omega (arith, left, v.single);
            no_timer =
                no_timer s.query s.intent s.loading s.request_gen _ s.asked s.timer v.waiting left;
            continues = v.continues l;
          })
          g q i (real f)
  ]

  sent-IsValid :
      (f : Flight) (s : TaskList Err)
      → s.timer ≡ some f
      → Good s
      → Good (record s { timer = none; asked = s.asked ++ f ∷ [] })
  sent-IsValid f s e v =
      let (g, q, i, l, z) =
        subst (Waits me_id serve s.query s.intent s.loading s.request_gen s.asked) e v.waiting in
      record {
        core = record {
          held = v.core.held;
          before =
              All-append (λ (x : Flight). x.gen ≤ s.request_gen) s.asked (f ∷ []) v.core.before
                (omega (arith, g), tt);
        };
        single = omega (arith, z, count-append me_id serve s.request_gen s.asked f g);
        waiting = refl;
        own =
            All-append (IsOwn me_id serve s.query s.intent s.loading s.request_gen) s.asked (f ∷ [])
              v.own ((λ _. (q, i, l)), tt);
        continues = v.continues;
        alive = λ _. omega (arith, z, count-append me_id serve s.request_gen s.asked f g);
        settled = λ h. cc (h, l);
      }

  pub fire-IsValid :
      (o : Option Flight) (s : TaskList Err) → s.timer ≡ o → Good s → Good (fire Err s)
  unfolding fire
  fire-IsValid none s e v =
      subst
        (λ t.
          Good
            (elim t [ none ↦ s | some f ↦ record s { timer = none; asked = s.asked ++ f ∷ [] } ]))
        (sym e) v
  fire-IsValid (some f) s e v =
      subst
        (λ t.
          Good
            (elim t [ none ↦ s | some f ↦ record s { timer = none; asked = s.asked ++ f ∷ [] } ]))
        (sym e) (sent-IsValid f s e v)

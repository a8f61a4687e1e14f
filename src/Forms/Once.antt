-- ===== src/Forms/Once.antt =====
-- web/src/ui.tsx: what is created by a form with a safe retry, on a server that keeps the
-- idempotency keys.
use accp.Prelude.{
  ℕ, zero, suc, ◌+◌, ◌≤◌, ◌≡◌, refl, sym, subst, inl, inr, Bool, true, false, ◌&&◌, ◌||◌, List, [],
  ◌∷◌, Option, none, some, if◌then◌else◌, any, length, ltb, lt→ltb, arith, Bool-cases, if_cases,
  either_way,
}
use accp.Text.{Text, text_eq, text_eq_refl}
use accp.Forms.{Form, new_form, begin, finish, retry, attempting, done, unknown_result, failed}

module _ (Fields Err : Type 0) (uuid : ℕ → Text) where
  -- The form with the server: `created` has the keys under which something was created, `confirmed`
  -- counts the answers that said so, `refused` the failures of a request whose result had been
  -- unknown before or that were errors of the server.
  pub record World : Type 0 where
    pub form : Form Fields Err
    pub created : List Text
    pub confirmed : ℕ
    pub refused : ℕ

  -- Something is created under a key once.
  abbrev pub create : Option (Fields × Text) → List Text → List Text
  create none keys = keys
  create (some (fields, key)) keys = if any (text_eq key) keys then keys else key ∷ keys

  -- `executed` says whether the server had created something although no answer came, or the answer
  -- was an error of the server, as it can be where something failed behind that.
  pub data Event : Type 0 where
    submits : Fields → Event
    retries : Event
    confirms : (replayed keep_open : Bool) → Event
    loses : Err → (executed : Bool) → Event
    refuses : Err → (server_error executed : Bool) → Event

  abbrev pub one_if : Bool → ℕ
  one_if true = 1
  one_if false = 0

  one_if-le : (b : Bool) → one_if b ≤ 1
  one_if-le true = omega arith
  one_if-le false = omega arith

  abbrev pub answered : Event → World → World
  answered (submits fields) w = w
  answered retries w = w
  answered (confirms replayed keep_open) w = record {
    form = finish Fields Err uuid true (done replayed keep_open) w.form;
    created = create w.form.attempt w.created;
    confirmed = suc w.confirmed;
    refused = w.refused;
  }
  answered (loses e executed) w = record w {
    form = finish Fields Err uuid true (unknown_result e) w.form;
    created = if executed then create w.form.attempt w.created else w.created;
  }
  answered (refuses e server_error executed) w = record w {
    form = finish Fields Err uuid true (failed e) w.form;
    created = if server_error && executed then create w.form.attempt w.created else w.created;
    refused = w.refused + one_if (server_error || ltb 0 w.form.timeouts);
  }

  -- An answer comes only while one is awaited.
  unfoldable pub step : Event → World → World
  unfolding begin retry finish
  step (submits fields) w = record w { form = begin Fields Err uuid true fields w.form }
  step retries w = record w { form = retry Fields Err uuid true w.form }
  step (confirms replayed keep_open) w =
      if w.form.pending then answered (confirms replayed keep_open) w else w
  step (loses e executed) w = if w.form.pending then answered (loses e executed) w else w
  step (refuses e server_error executed) w =
      if w.form.pending then answered (refuses e server_error executed) w else w

  unfoldable pub run : List Event → World → World
  unfolding step
  run [] w = w
  run (e ∷ es) w = run es (step e w)

  unfoldable pub at_first : World
  unfolding new_form
  at_first = record { form = new_form Fields Err; created = []; confirmed = 0; refused = 0 }

  -- How many may have been created.
  abbrev IsCounted : (timeouts : ℕ) → Option (Fields × Text) → List Text → ℕ → Type 0
  IsCounted zero attempt created n = length created ≤ n
  IsCounted (suc t) none created n = suc n ≤ 0
  IsCounted (suc t) (some (fields, key)) created n =
      length created ≤ n + one_if (any (text_eq key) created)

  abbrev IsAttempting : (pending : Bool) → Option (Fields × Text) → Type 0
  IsAttempting false a = a ≡ a
  IsAttempting true none = zero ≡ suc zero
  IsAttempting true (some a) = a ≡ a

  record IsValid (w : World) : Type 0 where
    counted : IsCounted w.form.timeouts w.form.attempt w.created (w.confirmed + w.refused)
    attempting : IsAttempting w.form.pending w.form.attempt

  at_most :
      (t : ℕ) (fields : Fields) (key : Text) (created : List Text) (n : ℕ)
      → IsCounted t (some (fields, key)) created n
      → length created ≤ n + one_if (any (text_eq key) created)
  at_most zero fields key created n h = omega (arith, h)
  at_most (suc t) fields key created n h = h

  length-create :
      (fields : Fields) (key : Text) (created : List Text) (n : ℕ)
      → length created ≤ n + one_if (any (text_eq key) created)
      → length (create (some (fields, key)) created) ≤ suc n
  length-create fields key created n h = elim (Bool-cases (any (text_eq key) created)) [
    | inl e ↦ rw e (omega (arith, subst (λ b. length created ≤ n + one_if b) e h))
    | inr e ↦ rw e (omega (arith, subst (λ b. length created ≤ n + one_if b) e h))
  ]

  length-create_own :
      (fields : Fields) (key : Text) (created : List Text) (n : ℕ)
      → length created ≤ n + one_if (any (text_eq key) created)
      → length (create (some (fields, key)) created)
        ≤ n + one_if (any (text_eq key) (create (some (fields, key)) created))
  length-create_own fields key created n h = elim (Bool-cases (any (text_eq key) created)) [
    | inl e ↦ rw (e, e) (omega (arith, subst (λ b. length created ≤ n + one_if b) e h))
    | inr e ↦
        rw (e, text_eq_refl key) (omega (arith, subst (λ b. length created ≤ n + one_if b) e h))
  ]

  -- An answer to the attempt that is awaited.
  answered-IsValid :
      (e : Event) (w : World) (a : Option (Fields × Text))
      → w.form.attempt ≡ a
      → IsAttempting true a
      → IsCounted w.form.timeouts a w.created (w.confirmed + w.refused)
      → IsValid w
      → IsValid (answered e w)
  unfolding finish
  answered-IsValid (submits fields) w a same some_a h v = v
  answered-IsValid retries w a same some_a h v = v
  answered-IsValid e w none same some_a h v = cc some_a
  answered-IsValid (confirms replayed keep_open) w (some (fields, key)) same some_a h v = record {
    counted =
        subst (λ x. length (create x w.created) ≤ suc w.confirmed + w.refused) (sym same)
          (omega (
            arith,
            length-create fields key w.created (w.confirmed + w.refused)
                (at_most w.form.timeouts fields key w.created _ h),
          ));
    attempting = refl;
  }
  answered-IsValid (loses e true) w (some (fields, key)) same some_a h v = record {
    counted =
        subst
          (λ x. IsCounted (suc w.form.timeouts) x (create x w.created) (w.confirmed + w.refused))
          (sym same)
          (length-create_own fields key w.created _
            (at_most w.form.timeouts fields key w.created _ h));
    attempting = refl;
  }
  answered-IsValid (loses e false) w (some (fields, key)) same some_a h v = record {
    counted =
        subst (λ x. IsCounted (suc w.form.timeouts) x w.created (w.confirmed + w.refused))
          (sym same) (at_most w.form.timeouts fields key w.created _ h);
    attempting = refl;
  }
  answered-IsValid (refuses e true true) w (some (fields, key)) same some_a h v = record {
    counted =
        subst (λ x. length (create x w.created) ≤ w.confirmed + (w.refused + 1)) (sym same)
          (omega (
            arith,
            length-create fields key w.created (w.confirmed + w.refused)
                (at_most w.form.timeouts fields key w.created _ h),
          ));
    attempting = refl;
  }
  answered-IsValid (refuses e true false) w (some (fields, key)) same some_a h v = record {
    counted = omega (
      arith,
      at_most w.form.timeouts fields key w.created _ h,
      one_if-le (any (text_eq key) w.created),
    );
    attempting = refl;
  }
  answered-IsValid (refuses e false executed) w (some (fields, key)) same some_a h v = record {
    counted = by w.form.timeouts h;
    attempting = refl;
  }
    where
      by :
          (t : ℕ)
          → IsCounted t (some (fields, key)) w.created (w.confirmed + w.refused)
          → length w.created ≤ w.confirmed + (w.refused + one_if (ltb 0 t))
      by zero c = omega (arith, c)
      by (suc t) c =
          rw (lt→ltb 0 (suc t) (omega arith))
            (omega (arith, c, one_if-le (any (text_eq key) w.created)))

  awaited-IsValid :
      (e : Event) (w : World) → IsValid w → IsValid (if w.form.pending then answered e w else w)
  awaited-IsValid e w v =
      if_cases IsValid w.form.pending
        (λ p.
          answered-IsValid e w w.form.attempt refl
            (subst (λ b. IsAttempting b w.form.attempt) p v.attempting) v.counted v)
        (λ _. v)

  -- The request of an attempt: the same again, or a new one.
  attempting-IsValid :
      (a : Option (Fields × Text)) (fields : Fields) (w : World) (f : Form Fields Err)
      → f.attempt ≡ a
      → f.pending ≡ true
      → IsCounted f.timeouts a w.created (w.confirmed + w.refused)
      → IsValid (record w { form = attempting Fields Err uuid true a fields f })
  attempting-IsValid none fields w f same p c = record {
    counted = started f.timeouts c;
    attempting = subst (λ b. IsAttempting b (some (fields, uuid f.uuids))) (sym p) refl;
  }
    where
      started :
          (t : ℕ)
          → IsCounted t none w.created (w.confirmed + w.refused)
          → IsCounted t (some (fields, uuid f.uuids)) w.created (w.confirmed + w.refused)
      started zero h = h
      started (suc t) h = absurd (omega (arith, h))
  attempting-IsValid (some (kept, key)) fields w f same p c = record {
    counted = subst (λ x. IsCounted f.timeouts x w.created (w.confirmed + w.refused)) (sym same) c;
    attempting =
        subst (λ x. IsAttempting f.pending x) (sym same)
          (subst (λ b. IsAttempting b (some (kept, key))) (sym p) refl);
  }

  begin-IsValid :
      (fields : Fields) (w : World)
      → IsValid w
      → IsValid (record w { form = begin Fields Err uuid true fields w.form })
  unfolding begin
  begin-IsValid fields w v =
      either_way (λ f. IsValid (record w { form = f }))
        (w.form.pending || w.form.replayed || w.form.completed)
        (record { counted = v.counted; attempting = v.attempting })
        (attempting-IsValid w.form.attempt fields w
          (record w.form { pending = true; busy = true; error = none }) refl refl v.counted)

  step-IsValid : (e : Event) (w : World) → IsValid w → IsValid (step e w)
  unfolding step
  step-IsValid (submits fields) w v = begin-IsValid fields w v
  step-IsValid retries w v = again w.form.attempt
    where
      again :
          (a : Option (Fields × Text))
          → IsValid (record w {
            form = elim a [ none ↦ w.form | some b ↦ begin Fields Err uuid true b.0 w.form ];
          })
      again none = record { counted = v.counted; attempting = v.attempting }
      again (some (fields, key)) = begin-IsValid fields w v
  step-IsValid (confirms replayed keep_open) w v = awaited-IsValid (confirms replayed keep_open) w v
  step-IsValid (loses e executed) w v = awaited-IsValid (loses e executed) w v
  step-IsValid (refuses e server_error executed) w v =
      awaited-IsValid (refuses e server_error executed) w v

  run-IsValid : (es : List Event) (w : World) → IsValid w → IsValid (run es w)
  unfolding run
  run-IsValid [] w v = v
  run-IsValid (e ∷ es) w v = run-IsValid es _ (step-IsValid e w v)

  counted_at_most :
      (t : ℕ) (a : Option (Fields × Text)) (created : List Text) (n : ℕ)
      → IsCounted t a created n
      → length created ≤ n + one_if (ltb 0 t)
  counted_at_most zero a created n h = omega (arith, h)
  counted_at_most (suc t) none created n h = absurd (omega (arith, h))
  counted_at_most (suc t) (some (fields, key)) created n h =
      rw (lt→ltb 0 (suc t) (omega arith)) (omega (arith, h, one_if-le (any (text_eq key) created)))

  -- However often the form is sent, and whatever answers are lost: not more is created than what was
  -- confirmed, and one more while the last result is unknown, but for one for each answer of an error
  -- of the server, and for each time that a request whose result was unknown has been refused when it
  -- was tried again. The server creates something under a key once.
  pub run-created :
      (es : List Event)
      → length (run es at_first).created
        ≤ (run es at_first).confirmed
          + (run es at_first).refused
          + one_if (ltb 0 (run es at_first).form.timeouts)
  unfolding at_first new_form
  run-created es =
      counted_at_most (run es at_first).form.timeouts (run es at_first).form.attempt
        (run es at_first).created _
        (run-IsValid es at_first (record { counted = omega arith; attempting = refl })).counted

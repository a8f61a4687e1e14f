-- ===== src/SavedViews/Menu/Laws.antt =====
-- web/src/tasks/SavedViews.tsx: the menu shows what the storage holds.
use mathlib.Core.Option
use accp.Prelude.{
  ◌≡◌, refl, ap, sym, ◌∙◌, ◌≢◌, inl, inr, Bool, true, false, not, List, [], ◌∷◌, ◌++◌, Option, none,
  some, find?, ℕ, zero, suc, ◌≤◌, length-append, arith, Bool-cases, if_cases, drop, length, ◌-◌,
  filter,
}
use accp.Text.{Text, text_eq_refl, is_empty, trim}
use accp.Text.Trim.{trim-trim}
use accp.Json.{Json, arr}
use accp.TaskQuery.{
  TaskListQuery, Params, serialize_task_list_search, task_list_search_equals, task_list_params,
  field_text, order_text,
}
use accp.TaskQuery.Reading.{parse_task_list_search-serialize}
use accp.SavedViews.{
  SavedView, Reads, Storage, read_saved_views, write_saved_views, upsert_saved_view,
  remove_saved_view, saved_views_key, to_json, parse_saved_views, or_empty, same_name,
}
use accp.SavedViews.Valid.{
  IsValid, parse_saved_views-IsValid, upsert_saved_view-IsValid, remove_saved_view-IsValid,
}
use accp.SavedViews.Storing.{read-write}
use accp.SavedViews.Menu.{
  Menu, Event, storage_of, shows, active, persist, save, remove, remove_found, change_project,
  open_save, step, run, mount,
}

module _ (lower : Text → Text) (parse : Text → Option Json) (stringify : Json → Text)
    (set : Reads → Text → Text → Option Reads) (read_pairs : Text → Params)
    (print_pairs : Params → Text) where
  abbrev store : Reads → Storage
  store = storage_of lower parse stringify set read_pairs print_pairs

  -- The storage keeps what is set, and `JSON.parse` takes back what `JSON.stringify` wrote for views.
  pub record IsWorking : Type 0 where
    pub keeps :
        (r : Reads) (key value : Text)
        → (r' : Reads) × (set r key value ≡ some r') × (r' key ≡ some (some value))
    pub back :
        (views : List SavedView)
        → IsValid lower views
        → parse (stringify (arr (to_json views))) ≡ some (arr (to_json views))
    pub filled : (views : List SavedView) → stringify (arr (to_json views)) ≢ []

  -- The views are fit to be stored, and a menu that was mounted now would show the same.
  pub record IsStored (s : Menu) : Type 0 where
    pub valid : IsValid lower s.views
    pub same : s.views ≡ read_saved_views lower parse (store s.reads) s.project_id

  read-IsValid :
      (reads : Reads) (id : Text) → IsValid lower (read_saved_views lower parse (store reads) id)
  unfolding read_saved_views
  read-IsValid reads id = of (reads (saved_views_key id))
    where
      of :
          (o : Option (Option Text))
          → IsValid lower (or_empty (Option.map (parse_saved_views lower parse) o))
      of none = parse_saved_views-IsValid lower parse none
      of (some raw) = parse_saved_views-IsValid lower parse raw

  -- What the storage reads as, and not how it is set, says what is read.
  read-storage :
      (a b : Storage) (id : Text)
      → a.get_item ≡ b.get_item
      → read_saved_views lower parse a id ≡ read_saved_views lower parse b id
  unfolding read_saved_views
  read-storage a b id e =
      ap
        (λ (r : Reads).
          or_empty (Option.map (parse_saved_views lower parse) (r (saved_views_key id))))
        e

  persist-IsStored :
      (next : List SavedView) (s : Menu)
      → IsWorking
      → IsValid lower next
      → IsStored (persist lower parse stringify set read_pairs print_pairs next s)
  unfolding persist
  persist-IsStored next s w v =
      let (r, written, kept) =
        w.keeps s.reads (saved_views_key s.project_id) (stringify (arr (to_json next))) in
      record {
        valid = v;
        same = sym (
            read-storage _
              (record (store s.reads) {
                get_item = write_saved_views stringify (store s.reads) s.project_id next;
              })
              s.project_id refl
            ∙ read-write lower parse stringify (store s.reads) s.project_id next r v (w.back next v)
                (w.filled next) written kept);
      }

  trim_ne : (name : Text) → is_empty (trim name) ≡ false → trim (trim name) ≢ []
  trim_ne name h e = cc (ap is_empty (sym (trim-trim name) ∙ e), h)

  step-IsStored :
      (query : TaskListQuery) (e : Event lower parse stringify set read_pairs print_pairs)
      (s : Menu)
      → IsWorking
      → IsStored s
      → IsStored (step lower parse stringify set read_pairs print_pairs query e s)
  unfolding step save remove change_project open_save
  step-IsStored query Event.saves s w v =
      if_cases IsStored (is_empty (trim s.name)) (λ _. v)
        (λ full.
          let kept =
            persist-IsStored
              (upsert_saved_view lower s.views (trim s.name)
                (serialize_task_list_search print_pairs query))
              s w
              (upsert_saved_view-IsValid lower s.views (trim s.name) _ v.valid
                (trim_ne s.name full)) in
          record { valid = kept.valid; same = kept.same })
  step-IsStored query Event.removes s w v =
      of (active lower parse stringify set read_pairs print_pairs s.views query)
    where
      of :
          (o : Option SavedView)
          → IsStored (remove_found lower parse stringify set read_pairs print_pairs o s)
      of none = v
      of (some a) =
          let kept =
            persist-IsStored (remove_saved_view lower s.views a.name) s w
              (remove_saved_view-IsValid lower s.views a.name v.valid) in
          record { valid = kept.valid; same = kept.same }
  step-IsStored query (Event.changes_project id) s w v = record {
    valid = read-IsValid s.reads id;
    same = refl;
  }
  step-IsStored query Event.opens_save s w v = record { valid = v.valid; same = v.same }
  step-IsStored query (Event.types name) s w v = record { valid = v.valid; same = v.same }
  step-IsStored query Event.cancels s w v = record { valid = v.valid; same = v.same }

  run-IsStored :
      (es : List (TaskListQuery × Event lower parse stringify set read_pairs print_pairs))
      (s : Menu)
      → IsWorking
      → IsStored s
      → IsStored (run lower parse stringify set read_pairs print_pairs es s)
  unfolding run
  run-IsStored [] s w v = v
  run-IsStored ((query, e) ∷ es) s w v = run-IsStored es _ w (step-IsStored query e s w v)

  -- Whatever is saved, removed or opened, and whichever project is shown: the menu shows what the
  -- storage holds for its project, so that a reload shows the same views; their names are trimmed,
  -- distinct but for case, and at most twenty. The storage keeps what is set.
  pub run-mount-IsStored :
      (id : Text) (reads : Reads)
      (es : List (TaskListQuery × Event lower parse stringify set read_pairs print_pairs))
      → IsWorking
      → IsStored (
          run lower parse stringify set read_pairs print_pairs es
            (mount lower parse stringify set read_pairs print_pairs id reads))
  unfolding mount
  run-mount-IsStored id reads es w =
      run-IsStored es (mount lower parse stringify set read_pairs print_pairs id reads) w
        (record { valid = read-IsValid reads id; same = refl })

  shows-saved :
      (query : TaskListQuery) (name : Text)
      → trim query.q ≡ query.q
      → read_pairs (print_pairs (task_list_params query)) ≡ task_list_params query
      → shows lower parse stringify set read_pairs print_pairs query
          (record { name = name; search = serialize_task_list_search print_pairs query })
        ≡ true
  unfolding shows task_list_search_equals
  shows-saved query name trimmed back =
      rw
        (
          parse_task_list_search-serialize query read_pairs print_pairs back,
          trimmed,
          text_eq_refl query.q,
          text_eq_refl query.owner,
          text_eq_refl query.status,
          text_eq_refl (field_text query.sort),
          text_eq_refl (order_text query.order),
        )
        refl

  find-last :
      (p : SavedView → Bool) (n : ℕ) (xs : List SavedView) (x : SavedView)
      → n ≤ length xs
      → p x ≡ true
      → (y : SavedView) × (find? p (drop n (xs ++ x ∷ [])) ≡ some y)
  find-last p zero [] x h e = (x, rw e refl)
  find-last p zero (y ∷ xs) x h e = elim (Bool-cases (p y)) [
    | inl f ↦ (y, rw f refl)
    | inr f ↦ let (z, found) = find-last p zero xs x (omega arith) e in (z, rw f found)
  ]
  find-last p (suc n) [] x h e = absurd (omega (arith, h))
  find-last p (suc n) (y ∷ xs) x h e = find-last p n xs x (omega (arith, h)) e

  -- Behind saving a view, the menu has a view that shows the filters that there are.
  pub active-save :
      (query : TaskListQuery) (s : Menu)
      → is_empty (trim s.name) ≡ false
      → trim query.q ≡ query.q
      → read_pairs (print_pairs (task_list_params query)) ≡ task_list_params query
      → (v : SavedView) × (active lower parse stringify set read_pairs print_pairs
            (save lower parse stringify set read_pairs print_pairs query s).views
            query
          ≡ some v)
  unfolding active save upsert_saved_view persist
  active-save query s filled trimmed back =
      if_cases Has (is_empty (trim s.name)) (λ e. cc (e, filled))
        (λ _.
          find-last (shows lower parse stringify set read_pairs print_pairs query) (length all - 20)
            rest new (omega (arith, length-append {0} rest (new ∷ [])))
            (shows-saved query (trim (trim s.name)) trimmed back))
    where
      Has : Menu → Type 0
      Has m =
          (v : SavedView) × (active lower parse stringify set read_pairs print_pairs m.views query
            ≡ some v)

      rest : List SavedView
      rest = filter (λ v. not (same_name lower v.name (trim (trim s.name)))) s.views

      new : SavedView
      new = record {
        name = trim (trim s.name);
        search = serialize_task_list_search print_pairs query;
      }

      all : List SavedView
      all = rest ++ new ∷ []

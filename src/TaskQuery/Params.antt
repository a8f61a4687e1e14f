-- ===== src/TaskQuery/Params.antt =====
-- What `get` gives behind `set`.
use accp.Prelude.{
  ◌≡◌, refl, sym, ap, ◌∙◌, false, [], ◌∷◌, none, some, arith, if◌then◌else◌, Bool-cases, inl, inr,
}
use accp.Text.{Text, codes, text_eq, text_eq_iff, text_eq_refl, is_empty}
use accp.Assoc.{
  lookup, lookup-delete, delete, delete_absent, delete-cons_same, delete-cons_other, delete-delete,
}
use accp.TaskQuery.{
  TaskListQuery, api_owner_param, field_text, order_text, build_task_list_request_params, Params,
  set_param, get_param, set_filled, set_status, or_blank, is_true,
}

pub get_param-set_param :
    (j key v : Text) (ps : Params)
    → get_param j (set_param key v ps) ≡ (if text_eq key j then some v else get_param j ps)
unfolding get_param set_param lookup
get_param-set_param j key v [] = refl
get_param-set_param j key v ((k, w) ∷ ps) = ground (
  arith,
  text_eq_iff key j,
  text_eq_iff k key,
  text_eq_iff k j,
  lookup-delete key j ps,
  get_param-set_param j key v ps,
)

pub set_filled_ne :
    (j key v : Text) (ps : Params)
    → text_eq key j ≡ false
    → get_param j (set_filled key v ps) ≡ get_param j ps
set_filled_ne j key v ps ne = elim (Bool-cases (is_empty v)) [
  | inl e ↦ rw e refl
  | inr e ↦ rw e (get_param-set_param j key v ps ∙ rw ne refl)
]

pub set_filled_self :
    (key v : Text) (ps : Params)
    → get_param key ps ≡ none
    → or_blank (get_param key (set_filled key v ps)) ≡ v
set_filled_self key [] ps absent = rw absent refl
set_filled_self key (c ∷ v) ps absent =
    rw (get_param-set_param key key (c ∷ v) ps, text_eq_refl key) refl

pub set_status_ne :
    (j status : Text) (ps : Params)
    → text_eq (codes "archived") j ≡ false
    → text_eq (codes "status") j ≡ false
    → get_param j (set_status status ps) ≡ get_param j ps
set_status_ne j status ps not_archived not_status =
    elim (Bool-cases (text_eq status (codes "archived"))) [
      | inl e ↦
          rw e (get_param-set_param j (codes "archived") (codes "true") ps ∙ rw not_archived refl)
      | inr e ↦ rw e (set_filled_ne j (codes "status") status ps not_status)
    ]

abbrev pub status_of : Params → Text
status_of ps =
    if is_true (get_param (codes "archived") ps)
    then codes "archived"
    else or_blank (get_param (codes "status") ps)

pub status_of-set_status :
    (status : Text) (ps : Params)
    → get_param (codes "archived") ps ≡ none
    → get_param (codes "status") ps ≡ none
    → status_of (set_status status ps) ≡ status
unfolding text_eq
status_of-set_status status ps no_archived no_status =
    elim (Bool-cases (text_eq status (codes "archived"))) [
      | inl e ↦
          rw (e, get_param-set_param (codes "archived") (codes "archived") (codes "true") ps)
            (sym ((text_eq_iff status (codes "archived")).0 e))
      | inr e ↦
          rw (e, set_filled_ne (codes "archived") (codes "status") status ps refl, no_archived)
            (set_filled_self (codes "status") status ps no_status)
    ]

pub delete-set_param :
    (key v : Text) (ps : Params) → delete key (set_param key v ps) ≡ delete key ps
unfolding set_param
delete-set_param key v [] = delete-cons_same key key v [] (text_eq_refl key)
delete-set_param key v ((k, w) ∷ ps) = elim (Bool-cases (text_eq k key)) [
  | inl e ↦
      ap (λ b. delete key (if b then (k, v) ∷ delete key ps else (k, w) ∷ set_param key v ps)) e
      ∙ delete-cons_same key k v (delete key ps) e
      ∙ delete-delete key ps
      ∙ sym (delete-cons_same key k w ps e)
  | inr e ↦
      ap (λ b. delete key (if b then (k, v) ∷ delete key ps else (k, w) ∷ set_param key v ps)) e
      ∙ delete-cons_other key k w (set_param key v ps) e
      ∙ ap (λ r. (k, w) ∷ r) (delete-set_param key v ps)
      ∙ sym (delete-cons_other key k w ps e)
]

pub delete-set_filled :
    (key v : Text) (ps : Params) → delete key (set_filled key v ps) ≡ delete key ps
delete-set_filled key [] ps = refl
delete-set_filled key (c ∷ v) ps = delete-set_param key (c ∷ v) ps

-- The filters of a request hold no cursor.
pub delete-build :
    (query : TaskListQuery) (me_id limit : Text)
    → delete (codes "cursor") (build_task_list_request_params query me_id [] limit)
      ≡ build_task_list_request_params query me_id [] limit
unfolding build_task_list_request_params text_eq get_param lookup
delete-build query me_id limit =
    let fixed : Params =
      (codes "limit", limit)
      ∷ (codes "sort", field_text query.sort)
      ∷ (codes "order", order_text query.order)
      ∷ [] in
    let found = set_filled (codes "q") query.q fixed in
    let owner = or_blank (api_owner_param query.owner me_id) in
    let owned = set_filled (codes "owner") owner found in
    delete_absent (codes "cursor") (set_status query.status owned) (
      set_status_ne (codes "cursor") query.status owned refl refl
      ∙ set_filled_ne (codes "cursor") (codes "owner") owner found refl
      ∙ set_filled_ne (codes "cursor") (codes "q") query.q fixed refl)

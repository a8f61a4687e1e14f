-- ===== src/TaskQuery/Reading.antt =====
-- The filters of the task list, written to the address or to the request and read back.
use accp.Prelude.{
  ◌≡◌, refl, ap, subst, Bool-cases, inl, inr, ◌∙◌, false, [], ◌∷◌, ◌++◌, none, some, if◌then◌else◌,
  drop,
}
use accp.Text.{Text, codes, text_eq, is_empty, starts_with, trim}
use accp.Text.Trim.{trim-trim}
use accp.Assoc.{lookup}
use accp.TaskQuery.{
  Params, SortField, updated_at, title, SortOrder, asc, desc, field_text, order_text, TaskListQuery,
  set_param, get_param, set_filled, set_status, or_blank, read_params, parse_task_list_search,
  task_list_params, serialize_task_list_search, is_sort_field, is_sort_order, choose_sort,
  api_owner_param, build_task_list_request_params,
}
use accp.TaskQuery.Params.{
  get_param-set_param, set_filled_ne, set_filled_self, set_status_ne, status_of,
  status_of-set_status,
}

is_sort_field-field_text : (s : SortField) → is_sort_field (some (field_text s)) ≡ some s
unfolding is_sort_field text_eq
is_sort_field-field_text updated_at = refl
is_sort_field-field_text title = refl

is_sort_order-order_text : (o : SortOrder) → is_sort_order (some (order_text o)) ≡ some o
unfolding is_sort_order text_eq
is_sort_order-order_text asc = refl
is_sort_order-order_text desc = refl

read_params-eq :
    (query : TaskListQuery) (ps : Params)
    → get_param (codes "sort") ps ≡ some (field_text query.sort)
    → get_param (codes "order") ps ≡ some (order_text query.order)
    → or_blank (get_param (codes "q") ps) ≡ query.q
    → or_blank (get_param (codes "owner") ps) ≡ query.owner
    → status_of ps ≡ query.status
    → read_params ps ≡ (record query { q = trim query.q }, false)
unfolding read_params choose_sort
read_params-eq query ps sort order q owner status =
    rw
      (
        sort,
        order,
        is_sort_field-field_text query.sort,
        is_sort_order-order_text query.order,
        q,
        owner,
        status,
      )
      refl

module _ (query : TaskListQuery) where
  abbrev filled : Params
  filled = set_filled (codes "owner") query.owner (set_filled (codes "q") query.q [])

  abbrev sorted : Params
  sorted = set_param (codes "sort") (field_text query.sort) (set_status query.status filled)

  task_list_params-below :
      (j : Text)
      → text_eq (codes "order") j ≡ false
      → text_eq (codes "sort") j ≡ false
      → get_param j (task_list_params query) ≡ get_param j (set_status query.status filled)
  unfolding task_list_params
  task_list_params-below j h k =
      get_param-set_param j (codes "order") _ _
      ∙ rw h (get_param-set_param j (codes "sort") _ _ ∙ rw k refl)

  get_param-sort : get_param (codes "sort") (task_list_params query) ≡ some (field_text query.sort)
  unfolding task_list_params text_eq
  get_param-sort =
      get_param-set_param (codes "sort") (codes "order") (order_text query.order) sorted
      ∙ get_param-set_param (codes "sort") (codes "sort") (field_text query.sort)
          (set_status query.status filled)

  get_param-order :
      get_param (codes "order") (task_list_params query) ≡ some (order_text query.order)
  unfolding task_list_params text_eq
  get_param-order =
      get_param-set_param (codes "order") (codes "order") (order_text query.order) sorted

  no_status_before :
      (j : Text)
      → text_eq (codes "owner") j ≡ false
      → text_eq (codes "q") j ≡ false
      → get_param j filled ≡ none
  unfolding get_param lookup
  no_status_before j h k =
      set_filled_ne j (codes "owner") query.owner _ h ∙ set_filled_ne j (codes "q") query.q [] k

  status_of-task_list_params : status_of (task_list_params query) ≡ query.status
  unfolding text_eq
  status_of-task_list_params =
      rw
        (
          task_list_params-below (codes "archived") refl refl,
          task_list_params-below (codes "status") refl refl,
        )
        (status_of-set_status query.status filled (no_status_before (codes "archived") refl refl)
          (no_status_before (codes "status") refl refl))

  read_params-task_list_params :
      read_params (task_list_params query) ≡ (record query { q = trim query.q }, false)
  unfolding text_eq get_param lookup
  read_params-task_list_params =
      read_params-eq query (task_list_params query) get_param-sort get_param-order
        (ap or_blank (
            task_list_params-below (codes "q") refl refl
            ∙ set_status_ne (codes "q") query.status filled refl refl
            ∙ set_filled_ne (codes "q") (codes "owner") query.owner
                (set_filled (codes "q") query.q []) refl)
          ∙ set_filled_self (codes "q") query.q [] refl)
        (ap or_blank (
            task_list_params-below (codes "owner") refl refl
            ∙ set_status_ne (codes "owner") query.status filled refl refl)
          ∙ set_filled_self (codes "owner") query.owner (set_filled (codes "q") query.q [])
              (set_filled_ne (codes "owner") (codes "q") query.q [] refl))
        status_of-task_list_params

  -- Filters written to the address are read back, the search text trimmed, with nothing to be
  -- normalized, if the browser reads back the parameters that it wrote.
  pub parse_task_list_search-serialize :
      (parse : Text → Params) (print : Params → Text)
      → parse (print (task_list_params query)) ≡ task_list_params query
      → parse_task_list_search parse (serialize_task_list_search print query)
        ≡ (record query { q = trim query.q }, false)
  unfolding parse_task_list_search serialize_task_list_search starts_with
  parse_task_list_search-serialize parse print back = by_case (print (task_list_params query)) back
    where
      by_case :
          (text : Text)
          → parse text ≡ task_list_params query
          → (let search = if is_empty text then [] else codes "?" ++ text in
              read_params (parse (if starts_with (codes "?") search then drop 1 search else search))
              ≡ (record query { q = trim query.q }, false))
      by_case [] e = ap read_params e ∙ read_params-task_list_params
      by_case (c ∷ text) e = ap read_params e ∙ read_params-task_list_params

  module _ (me_id cursor limit : Text) where
    -- The owner that is asked for: the user, where the filter says `me`.
    abbrev pub asked_owner : Text
    asked_owner = if text_eq query.owner (codes "me") then me_id else query.owner

    owner-eq : or_blank (api_owner_param query.owner me_id) ≡ asked_owner
    unfolding api_owner_param text_eq
    owner-eq = by_owner query.owner
      where
        by_owner :
            (o : Text)
            → or_blank (api_owner_param o me_id) ≡ (if text_eq o (codes "me") then me_id else o)
        by_owner [] = refl
        by_owner (c ∷ o) = elim (Bool-cases (text_eq (c ∷ o) (codes "me"))) [
          | inl e ↦ rw e refl
          | inr e ↦ rw e refl
        ]

    abbrev owner : Text
    owner = or_blank (api_owner_param query.owner me_id)

    abbrev base : Params
    base =
        (codes "limit", limit)
        ∷ (codes "sort", field_text query.sort)
        ∷ (codes "order", order_text query.order)
        ∷ []

    abbrev named : Params
    named = set_filled (codes "owner") owner (set_filled (codes "q") query.q base)

    request : Params
    request = build_task_list_request_params query me_id cursor limit

    request-below :
        (j : Text)
        → text_eq (codes "cursor") j ≡ false
        → text_eq (codes "archived") j ≡ false
        → text_eq (codes "status") j ≡ false
        → get_param j request ≡ get_param j named
    unfolding request build_task_list_request_params
    request-below j h k l =
        set_filled_ne j (codes "cursor") cursor _ h ∙ set_status_ne j query.status named k l

    named-below :
        (j : Text)
        → text_eq (codes "owner") j ≡ false
        → text_eq (codes "q") j ≡ false
        → get_param j named ≡ get_param j base
    named-below j h k =
        set_filled_ne j (codes "owner") owner _ h ∙ set_filled_ne j (codes "q") query.q base k

    status_of-request : status_of request ≡ query.status
    unfolding text_eq get_param lookup request build_task_list_request_params
    status_of-request =
        rw
          (
            set_filled_ne (codes "archived") (codes "cursor") cursor (set_status query.status named)
                refl,
            set_filled_ne (codes "status") (codes "cursor") cursor (set_status query.status named)
                refl,
          )
          (status_of-set_status query.status named (named-below (codes "archived") refl refl)
            (named-below (codes "status") refl refl))

    read_back : read_params request ≡ (record query { q = trim query.q; owner = owner }, false)
    unfolding text_eq get_param lookup request
    read_back =
        read_params-eq (record query { owner = owner }) request
          (request-below (codes "sort") refl refl refl ∙ named-below (codes "sort") refl refl)
          (request-below (codes "order") refl refl refl ∙ named-below (codes "order") refl refl)
          (ap or_blank (
              request-below (codes "q") refl refl refl
              ∙ set_filled_ne (codes "q") (codes "owner") owner
                  (set_filled (codes "q") query.q base) refl)
            ∙ set_filled_self (codes "q") query.q base refl)
          (ap or_blank (request-below (codes "owner") refl refl refl)
            ∙ set_filled_self (codes "owner") owner (set_filled (codes "q") query.q base)
                (set_filled_ne (codes "owner") (codes "q") query.q base refl))
          status_of-request

    -- The request for the list asks for what the address shows: its parameters read as the same
    -- filters, the search text trimmed and the owner `me` replaced by the user's id.
    pub read_params-build_task_list_request_params :
        read_params (build_task_list_request_params query me_id cursor limit)
        ≡ (record query { q = trim query.q; owner = asked_owner }, false)
    unfolding text_eq get_param lookup request
    read_params-build_task_list_request_params =
        subst
          (λ o.
            read_params (build_task_list_request_params query me_id cursor limit)
            ≡ (record query { q = trim query.q; owner = o }, false))
          owner-eq read_back

trim-q :
    (parse : Text → Params) (search : Text)
    → trim (parse_task_list_search parse search).0.q ≡ (parse_task_list_search parse search).0.q
unfolding parse_task_list_search read_params
trim-q parse search = trim-trim _

-- Whatever stands in the address: the address written for the filters that are read from it is read
-- as the same filters, with nothing to be normalized, if the browser reads back what it wrote.
pub parse_task_list_search-canonical :
    (parse : Text → Params) (print : Params → Text) (search : Text)
    → (let query = (parse_task_list_search parse search).0 in
        parse (print (task_list_params query)) ≡ task_list_params query)
    → parse_task_list_search parse
        (serialize_task_list_search print (parse_task_list_search parse search).0)
      ≡ ((parse_task_list_search parse search).0, false)
parse_task_list_search-canonical parse print search back =
    parse_task_list_search-serialize query parse print back
    ∙ ap (λ s. (record query { q = s }, false)) (trim-q parse search)
  where
    query : TaskListQuery
    query = (parse_task_list_search parse search).0

-- ===== src/Api/Pages.antt =====
-- `API.all`: every page of a listing, one after the other, by the cursor that each gives for the
-- next. `fetch_page` stands for `call` at the path of a page: its items and its `next_cursor`, with
-- "" for none, or the exception. `encode` is `encodeURIComponent`.
use accp.Prelude.{
  ℕ, zero, suc, ◌≤◌, ◌≡◌, refl, ap, ◌∙◌, ◌≢◌, Bool, true, false, List, [], ◌∷◌, ◌++◌, append_assoc,
  none, some, arith, if◌then◌else◌,
}
use accp.Text.{Text, codes, is_empty, index_of}

-- A page, or what was thrown.
pub data PageResult (Item Err : Type 0) : Type 0 where
  page : List Item → (next_cursor : Text) → PageResult Item Err
  thrown : Err → PageResult Item Err

-- All items, or what was thrown; `pending` means that the fuel ran out.
pub data Listing (Item Err : Type 0) : Type 0 where
  listed : List Item → Listing Item Err
  failed : Err → Listing Item Err
  pending : Listing Item Err

module _ {Item Err : Type 0} where
  -- The items that an earlier page gave stand in front; an exception keeps none.
  abbrev pub prefix : List Item → Listing Item Err → Listing Item Err
  prefix items (listed rest) = listed (items ++ rest)
  prefix items (failed e) = failed e
  prefix items pending = pending

  prefix-append :
      (xs ys : List Item) (l : Listing Item Err) → prefix (xs ++ ys) l ≡ prefix xs (prefix ys l)
  prefix-append xs ys (listed zs) = ap listed (append_assoc xs ys zs)
  prefix-append xs ys (failed e) = refl
  prefix-append xs ys pending = refl

  prefix-nil : (l : Listing Item Err) → prefix [] l ≡ l
  prefix-nil (listed zs) = refl
  prefix-nil (failed e) = refl
  prefix-nil pending = refl

not_empty : (s : Text) → s ≢ [] → is_empty s ≡ false
not_empty [] h = absurd (h refl)
not_empty (c ∷ s) h = refl

has_query : Text → Bool
has_query path = elim (index_of (codes "?") path) [ none ↦ false | some _ ↦ true ]

unfoldable pub page_path : (encode : Text → Text) → (path cursor : Text) → Text
unfolding has_query
page_path encode path cursor =
    path
    ++ ((if has_query path then codes "&" else codes "?")
        ++ (codes "limit=100"
            ++ (if is_empty cursor then [] else codes "&cursor=" ++ encode cursor)))

module _ {Item Err : Type 0} (encode : Text → Text) (fetch_page : Text → PageResult Item Err)
    (path : Text) where
  -- the `do` loop of `all`
  pub all_from : (fuel : ℕ) → List Item → (cursor : Text) → Listing Item Err
  all_from zero result cursor = pending
  all_from (suc fuel) result cursor = elim (fetch_page (page_path encode path cursor)) [
    | thrown e ↦ failed e
    | page items next ↦
        let rest = all_from fuel (result ++ items) next in
        if is_empty next then listed (result ++ items) else rest
  ]

  pub all : (fuel : ℕ) → Listing Item Err
  unfolding all_from
  all fuel = all_from fuel [] []

  -- From `cursor` the server gives `n` pages, the last without a cursor for the next: with the items
  -- `items`, or with an exception at the last.
  pub data Chain : (n : ℕ) → (cursor : Text) → Listing Item Err → Type 0 where
    last :
        {cursor : Text} {items : List Item}
        → fetch_page (page_path encode path cursor) ≡ page items []
        → Chain 1 cursor (listed items)
    fails :
        {cursor : Text} {e : Err}
        → fetch_page (page_path encode path cursor) ≡ thrown e
        → Chain 1 cursor (failed e)
    more :
        {n : ℕ} {cursor next : Text} {items : List Item} {rest : Listing Item Err}
        → fetch_page (page_path encode path cursor) ≡ page items next
        → next ≢ []
        → Chain n next rest
        → Chain (suc n) cursor (prefix items rest)

  all_from-page :
      (fuel : ℕ) (result items : List Item) (cursor next : Text)
      → fetch_page (page_path encode path cursor) ≡ page items next
      → all_from (suc fuel) result cursor
        ≡ (if is_empty next then listed (result ++ items) else all_from fuel (result ++ items) next)
  unfolding all_from
  all_from-page fuel result items cursor next e = rw (e, all_from)

  all_from-thrown :
      (fuel : ℕ) (result : List Item) (cursor : Text) {e : Err}
      → fetch_page (page_path encode path cursor) ≡ thrown e
      → all_from (suc fuel) result cursor ≡ failed e
  unfolding all_from
  all_from-thrown fuel result cursor e = rw (e, all_from)

  all_from-Chain :
      (fuel n : ℕ) (result : List Item) {cursor : Text} {out : Listing Item Err}
      → Chain n cursor out
      → n ≤ fuel
      → all_from fuel result cursor ≡ prefix result out
  all_from-Chain zero n result (last e) h = absurd (omega arith)
  all_from-Chain zero n result (fails e) h = absurd (omega arith)
  all_from-Chain zero n result (more e ne c) h = absurd (omega arith)
  all_from-Chain (suc fuel) n result (last {cursor} {items} e) h =
      all_from-page fuel result items cursor [] e
  all_from-Chain (suc fuel) n result (fails {cursor} e) h = all_from-thrown fuel result cursor e
  all_from-Chain (suc fuel) n result (more {n = m} {cursor} {next} {items} {rest} e ne c) h =
      all_from-page fuel result items cursor next e
      ∙ rw (not_empty next ne) (
          all_from-Chain fuel m (result ++ items) c (omega arith) ∙ prefix-append result items rest)

  -- Where the pages of the server come to an end, or to an exception, so does the listing, with the
  -- items of all pages in their order, or with that exception and no items.
  pub all-Chain : (fuel n : ℕ) {out : Listing Item Err} → Chain n [] out → n ≤ fuel → all fuel ≡ out
  unfolding all
  all-Chain fuel n {out} c h = all_from-Chain fuel n [] c h ∙ prefix-nil out

-- ===== src/Notifications/Loading.antt =====
-- web/src/app/useNotifications.ts: the pages of the list, answered in and out of order.
use accp.Prelude.{
  ℕ, zero, suc, ◌≡◌, refl, ap, ◌∙◌, List, [], ◌∷◌, ◌++◌, Bool, true, false, not, append_assoc, some,
  none, Option, if◌then◌else◌,
}
use accp.Text.{Text, is_empty}
use accp.Notifications.{
  NotificationItem, Center, Load, Answer, begin_load, end_load, refresh_list, load_more, load_from,
  toggle_unread, has_more,
}

-- What the server has for a query: pages, each but the last with the cursor of the next.
pub data Pages : Type 0 where
  last : List NotificationItem → Pages
  more : List NotificationItem → (head : ℕ) (tail : Text) → Pages → Pages

unfoldable pub all_items : Pages → List NotificationItem
all_items (Pages.last xs) = xs
all_items (Pages.more xs a t ps) = xs ++ all_items ps

unfoldable pub further : Pages → ℕ
further (Pages.last xs) = 0
further (Pages.more xs a t ps) = suc (further ps)

not-not : (b : Bool) → b ≡ not (not b)
not-not true = refl
not-not false = refl

module _ (Err : Type 0) where
  -- What the server gives for a request.
  module _ (serve : Load Err → List NotificationItem × Option Text) where
    -- Asked with the filter, from the cursor on, the server has these pages.
    unfoldable pub Serves : (unread : Bool) → (from : Text) → Pages → Type 0
    Serves unread from (Pages.last xs) =
        serve (record { unread = unread; from = from }) ≡ (xs, none)
    Serves unread from (Pages.more xs a t ps) =
        (serve (record { unread = unread; from = from }) ≡ (xs, some (a ∷ t)))
        × Serves unread (a ∷ t) ps

    abbrev pub answered : List NotificationItem × Option Text → Answer Err
    answered (xs, next) = Answer.page xs next

    -- The request is answered by the server, and "load more" is pressed so many times, the answer
    -- being waited for each time.
    unfoldable pub follow : ℕ → Option (Load Err) × Center Err → Center Err
    follow n (none, c) = c
    follow zero (some opts, c) = end_load Err opts (answered (serve opts)) c
    follow (suc n) (some opts, c) =
        follow n (load_more Err (end_load Err opts (answered (serve opts)) c))

    -- what a page is put behind
    abbrev kept : Text → Center Err → List NotificationItem
    kept [] c = []
    kept (_ ∷ _) c = c.items

    page-items :
        (from : Text) (c : Center Err) (xs : List NotificationItem)
        → (if is_empty from then xs else c.items ++ xs) ≡ kept from c ++ xs
    page-items [] c xs = refl
    page-items (_ ∷ _) c xs = refl

    abbrev asked : Text → Center Err → Option (Load Err) × Center Err
    asked from c = (some (record { unread = c.unread_only; from = from }), c)

    follow-items :
        (ps : Pages) (from : Text) (c : Center Err)
        → Serves c.unread_only from ps
        → (follow (further ps) (asked from c)).items ≡ kept from c ++ all_items ps
    unfolding follow end_load load_more load_from begin_load all_items Serves further
    follow-items (Pages.last xs) from c h = rw h (page-items from c xs)
    follow-items (Pages.more xs a t ps) from c (h, hs) = rw h (
        follow-items ps (a ∷ t) _ hs
        ∙ ap (λ l. l ++ all_items ps) (page-items from c xs)
        ∙ append_assoc (kept from c) xs (all_items ps))

    follow-has_more :
        (ps : Pages) (from : Text) (c : Center Err)
        → Serves c.unread_only from ps
        → has_more Err (follow (further ps) (asked from c)) ≡ false
    unfolding follow end_load load_more load_from begin_load has_more Serves further
    follow-has_more (Pages.last xs) from c h = rw h refl
    follow-has_more (Pages.more xs a t ps) from c (h, hs) = rw h (follow-has_more ps (a ∷ t) _ hs)

    -- A refresh, with "load more" as often as there are further pages, each answer waited for, shows
    -- the pages that the server has for the filter that is on, one after another and whatever was
    -- shown before; then there is no more to load.
    pub refresh_list-follow :
        (ps : Pages) (c : Center Err)
        → Serves c.unread_only [] ps
        → (let (opts, c') = refresh_list Err c in
            ((follow (further ps) (some opts, c')).items ≡ all_items ps)
            × (has_more Err (follow (further ps) (some opts, c')) ≡ false))
    unfolding refresh_list begin_load
    refresh_list-follow ps c h = (follow-items ps [] _ h, follow-has_more ps [] _ h)

  -- the request, if there is one, fails
  unfoldable pub failing : Err → Option (Load Err) × Center Err → Center Err
  failing e (none, c) = c
  failing e (some opts, c) = end_load Err opts (Answer.thrown e) c

  load_from-retry :
      (o : Option Text) (c : Center Err) (e : Err)
      → c.cursor ≡ o
      → load_more Err (failing e (load_from Err o c)) ≡ load_from Err o c
  unfolding failing load_more load_from begin_load end_load
  load_from-retry none c e h = rw h refl
  load_from-retry (some []) c e h = rw h refl
  load_from-retry (some (_ ∷ _)) c e h = rw h refl

  -- "Load more" after one that failed asks for the same page from the same state as that one, the
  -- error gone.
  pub load_more-retry :
      (c : Center Err) (e : Err) → load_more Err (failing e (load_more Err c)) ≡ load_more Err c
  unfolding load_more
  load_more-retry c e = load_from-retry c.cursor c e refl

  -- The unread chip is pressed twice, and the answers come out of order: the list shows what was
  -- asked for with the filter that is no longer on, and in order it shows the other page.
  pub toggle_unread-race :
      (c : Center Err) (old new : List NotificationItem) (n m : Option Text)
      → (let (first, c₁) = toggle_unread Err c in
          let (second, c₂) = toggle_unread Err c₁ in
          let late =
            end_load Err first (Answer.page old n) (end_load Err second (Answer.page new m) c₂) in
          let in_order =
            end_load Err second (Answer.page new m) (end_load Err first (Answer.page old n) c₂) in
          ((first.unread ≡ not late.unread_only) × (late.items ≡ old))
          × ((second.unread ≡ in_order.unread_only) × (in_order.items ≡ new)))
  unfolding toggle_unread begin_load end_load
  toggle_unread-race c old new n m = ((not-not _, refl), (refl, refl))

-- ===== src/Notifications/Tests.antt =====
-- web/src/app/useNotifications.ts at concrete inputs.
use accp.Prelude.{
  ℕ, ◌≡◌, refl, List, [], ◌∷◌, Bool, true, false, not, some, none, Option, if◌then◌else◌, arith,
}
use accp.Text.{Text, codes, text_eq, is_empty}
use accp.Notifications.{
  NotificationItem, Center, Load, Answer, badge_text, two_digits, refresh_list, end_load, has_more,
  toggle_unread, mark_read,
}
use accp.Notifications.Reading.{unread, Distinct, IsCounted}
use accp.Notifications.Loading.{
  Pages, all_items, further, follow, Serves, refresh_list-follow, toggle_unread-race,
}

abbrev notice : ℕ → Bool → NotificationItem
notice n read = record {
  id = n ∷ [];
  type = codes "task_assigned";
  project_id = codes "p";
  project_name = codes "P";
  title = codes "t";
  occurred_at = codes "2024";
  deep_link = codes "/tasks";
  read = read;
}

abbrev some_items : List NotificationItem
some_items = notice 97 true ∷ notice 98 false ∷ notice 99 false ∷ []

abbrev center : Center Text
center = record {
  count = 5;
  items = some_items;
  cursor = some (codes "x");
  unread_only = false;
  loading = false;
  error = none;
  loaded = true;
}

abbrev server_pages : Pages
server_pages =
    Pages.more some_items 120 []
      (Pages.more (notice 100 false ∷ []) 121 [] (Pages.last (notice 101 true ∷ [])))

center-IsCounted : IsCounted Text center
unfolding IsCounted Distinct unread text_eq
center-IsCounted = ((((refl, (refl, tt)), ((refl, tt), (tt, tt))), omega arith))

asks : (mark_read Text (codes "b") center).0 ≡ true
unfolding mark_read text_eq
asks = refl

badge_run : badge_text 42 ≡ codes "42"
unfolding badge_text two_digits
badge_run = refl

-- A server that has no page where only the unread ones are asked for.
abbrev served : Load Text → List NotificationItem × Option Text
served opts =
    if opts.unread
    then ([], none)
    else (if is_empty opts.from
        then (some_items, some (codes "x"))
        else (if text_eq opts.from (codes "x")
            then (notice 100 false ∷ [], some (codes "y"))
            else (notice 101 true ∷ [], none)))

server_pages-Serves : Serves Text served false [] server_pages
unfolding Serves text_eq
server_pages-Serves = (refl, (refl, refl))

refresh_list-follow_example :
    (let (opts, c) = refresh_list Text center in
      ((follow Text served (further server_pages) (some opts, c)).items ≡ all_items server_pages)
      × (has_more Text (follow Text served (further server_pages) (some opts, c)) ≡ false))
refresh_list-follow_example =
    refresh_list-follow Text served server_pages center server_pages-Serves

toggle_unread-race_example :
    (let (first, c₁) = toggle_unread Text center in
      let (second, c₂) = toggle_unread Text c₁ in
      let late =
        end_load Text first
          (Answer.page (notice 98 false ∷ []) none)
          (end_load Text second (Answer.page some_items none) c₂) in
      let in_order =
        end_load Text second
          (Answer.page some_items none)
          (end_load Text first (Answer.page (notice 98 false ∷ []) none) c₂) in
      ((first.unread ≡ not late.unread_only) × (late.items ≡ notice 98 false ∷ []))
      × ((second.unread ≡ in_order.unread_only) × (in_order.items ≡ some_items)))
toggle_unread-race_example =
    toggle_unread-race Text center (notice 98 false ∷ []) some_items none none

-- ===== src/Notifications.antt =====
-- web/src/app/useNotifications.ts: the unread badge and the list of the notification panel. The
-- hook's state is a record; each asynchronous operation is one step up to its request and one for
-- the answer, since other steps may come between.
pub mod Badge
pub mod Reading
pub mod Loading
mod Tests
use accp.Prelude.{
  ℕ, ◌+◌, ◌-◌, ◌/◌, ◌%◌, Bool, true, false, not, List, [], ◌∷◌, ◌++◌, map, Option, none, some, leb,
  ltb, ◌==◌, if◌then◌else◌, find?,
}
use accp.Text.{Text, codes, text_eq, is_empty}

pub record NotificationItem : Type 0 where
  pub id : Text
  pub type : Text
  pub project_id : Text
  pub project_name : Text
  pub title : Text
  pub occurred_at : Text
  pub deep_link : Text
  pub read : Bool

-- `String(count)`, where it is called: from 1 to 99
pub two_digits : ℕ → Text
two_digits n = if ltb n 10 then (48 + n) ∷ [] else (48 + n / 10) ∷ (48 + n % 10) ∷ []

pub badge_text : ℕ → Text
unfolding two_digits
badge_text count =
    if leb count 0 then [] else (if leb 100 count then codes "99+" else two_digits count)

abbrev pub set_read : Text → NotificationItem → NotificationItem
set_read id item = if text_eq item.id id then record item { read = true } else item

module _ (Err : Type 0) where
  pub record Center : Type 0 where
    pub count : ℕ
    pub items : List NotificationItem
    pub cursor : Option Text
    pub unread_only : Bool
    pub loading : Bool
    pub error : Option Err
    pub loaded : Bool

  -- The arguments of `load`; a cursor of "" asks for the first page, as none does.
  pub record Load : Type 0 where
    pub unread : Bool
    pub from : Text

  -- What the server gives for a page: items and the cursor of the next, or an exception.
  pub data Answer : Type 0 where
    page : List NotificationItem → (next_cursor : Option Text) → Answer
    thrown : Err → Answer

  -- `hasMore`
  pub has_more : Center → Bool
  has_more c = elim c.cursor [ none ↦ false | some _ ↦ true ]

  -- the answer to `refreshCount`; a failed one leaves the count
  pub counted : Option ℕ → Center → Center
  counted none c = c
  counted (some n) c = record c { count = n }

  -- `load`, up to its request
  pub begin_load : Load → Center → Load × Center
  begin_load opts c = (opts, record c { loading = true; error = none })

  -- `load`, from the answer on
  pub end_load : Load → Answer → Center → Center
  end_load opts (thrown e) c = record c { error = some e; loading = false }
  end_load opts (page items next) c = record c {
    items = if is_empty opts.from then items else c.items ++ items;
    cursor = next;
    loaded = true;
    loading = false;
  }

  pub refresh_list : Center → Load × Center
  unfolding begin_load
  refresh_list c = begin_load (record { unread = c.unread_only; from = [] }) c

  -- `loadMore`, by the cursor it has
  pub load_from : Option Text → Center → Option Load × Center
  unfolding begin_load
  load_from none c = (none, c)
  load_from (some []) c = (none, c)
  load_from (some (a ∷ s)) c =
      (let (opts, c') = begin_load (record { unread = c.unread_only; from = a ∷ s }) c in
        (some opts, c'))

  pub load_more : Center → Option Load × Center
  unfolding load_from
  load_more c = load_from c.cursor c

  pub toggle_unread : Center → Load × Center
  unfolding begin_load
  toggle_unread c =
      let next = not c.unread_only in
      begin_load (record { unread = next; from = [] }) (record c { unread_only = next })

  -- `markRead`, from what it has found on
  pub mark_target : Text → Option NotificationItem → Center → Bool × Center
  mark_target id none c = (false, c)
  mark_target id (some target) c =
      if target.read
      then (false, c)
      else (true, record c { items = map (set_read id) c.items; count = c.count - 1 })

  -- `markRead`, up to its request; the flag says whether there is one.
  pub mark_read : Text → Center → Bool × Center
  unfolding mark_target
  mark_read id c = mark_target id (find? (λ item. text_eq item.id id) c.items) c

  -- `markAllRead`, up to its request
  pub mark_all_read : Center → Center
  mark_all_read c = record c {
    items = map {A = NotificationItem} (λ item. record item { read = true }) c.items;
    count = 0;
  }

-- ===== src/Routing/RoundTrip.antt =====
-- A route that is printed and read back.
use accp.Prelude.{
  ℕ, ◌≡◌, refl, ap, ◌∙◌, ◌≢◌, Bool, true, false, not, List, [], ◌∷◌, ◌++◌, Option, none, some,
  if◌then◌else◌, arith, filter, All, All-append,
}
use accp.Text.{Text, codes, text_eq, is_empty, split, Without}
use accp.Text.Parts.{split_self, split-append, split_of_Without}
use accp.Routing.{
  PageId, overview, tasks, contexts, artifacts, approvals, agents, tools, members, audit,
  management, operations, help, Route, project, work, page_text, page_of, before_query, path_only,
  decoded, page_route, read_task, read_page, read_project, read_parts, read_route, route_path,
}

abbrev Plain : Text → Type 0
Plain = All (λ (c : ℕ). (c ≢ 63) × (c ≢ 35))

before_query-Plain : (s : Text) → Plain s → before_query s ≡ s
unfolding before_query
before_query-Plain [] h = refl
before_query-Plain (c ∷ s) ((h, k), hs) = ground (arith, h, k, before_query-Plain s hs)

page_text-Plain : (page : PageId) → Plain (page_text page)
page_text-Plain overview = ground arith
page_text-Plain tasks = ground arith
page_text-Plain contexts = ground arith
page_text-Plain artifacts = ground arith
page_text-Plain approvals = ground arith
page_text-Plain agents = ground arith
page_text-Plain tools = ground arith
page_text-Plain members = ground arith
page_text-Plain audit = ground arith
page_text-Plain management = ground arith
page_text-Plain operations = ground arith
page_text-Plain help = ground arith

page_text-Without : (page : PageId) → Without 47 (page_text page)
page_text-Without overview = ground arith
page_text-Without tasks = ground arith
page_text-Without contexts = ground arith
page_text-Without artifacts = ground arith
page_text-Without approvals = ground arith
page_text-Without agents = ground arith
page_text-Without tools = ground arith
page_text-Without members = ground arith
page_text-Without audit = ground arith
page_text-Without management = ground arith
page_text-Without operations = ground arith
page_text-Without help = ground arith

page_of-page_text : (page : PageId) → page_of (page_text page) ≡ some page
unfolding page_of text_eq
page_of-page_text overview = refl
page_of-page_text tasks = refl
page_of-page_text contexts = refl
page_of-page_text artifacts = refl
page_of-page_text approvals = refl
page_of-page_text agents = refl
page_of-page_text tools = refl
page_of-page_text members = refl
page_of-page_text audit = refl
page_of-page_text management = refl
page_of-page_text operations = refl
page_of-page_text help = refl

page_text-filled : (page : PageId) → is_empty (page_text page) ≡ false
page_text-filled overview = refl
page_text-filled tasks = refl
page_text-filled contexts = refl
page_text-filled artifacts = refl
page_text-filled approvals = refl
page_text-filled agents = refl
page_text-filled tools = refl
page_text-filled members = refl
page_text-filled audit = refl
page_text-filled management = refl
page_text-filled operations = refl
page_text-filled help = refl

module _ (encode : Text → Text) (decode : Text → Option Text) where
  -- The text goes through the two functions, and its code keeps clear of what parts a path.
  pub record IsCarried (s : Text) : Type 0 where
    pub back : decode (encode s) ≡ some s
    pub filled : is_empty (encode s) ≡ false
    pub plain : All (λ (c : ℕ). (c ≢ 63) × (c ≢ 35)) (encode s)
    pub whole : Without 47 (encode s)

  -- A route that is not invalid, has a task only on the page of tasks, and texts that are carried.
  unfoldable pub IsCanonical : Route → Type 0
  IsCanonical (work invalid) = invalid ≡ false
  IsCanonical (project [] page task invalid) = (page ≡ overview) × (task ≡ none) × (invalid ≡ false)
  IsCanonical (project (c ∷ id) page none invalid) = IsCarried (c ∷ id) × (invalid ≡ false)
  IsCanonical (project (c ∷ id) page (some task) invalid) =
      IsCarried (c ∷ id)
      × IsCarried task
      × (is_empty task ≡ false)
      × (page ≡ tasks)
      × (invalid ≡ false)

  abbrev filled_part : Text → Bool
  filled_part part = not (is_empty part)

  parts-two :
      (a b : Text)
      → Without 47 a
      → Without 47 b
      → is_empty a ≡ false
      → is_empty b ≡ false
      → filter filled_part (split 47 (codes "/projects/" ++ (a ++ 47 ∷ b)))
        ≡ codes "projects" ∷ a ∷ b ∷ []
  parts-two a b wa wb fa fb =
      ap (filter filled_part) (
        split_self 47 _
        ∙ ap ([] ∷◌) (
            split-append 47 (codes "projects") (a ++ 47 ∷ b) (ground arith)
            ∙ ap (codes "projects" ∷◌)
                (split-append 47 a b wa ∙ ap (a ∷◌) (split_of_Without 47 b wb))))
      ∙ rw (fa, fb) refl

  parts-three :
      (a b d : Text)
      → Without 47 a
      → Without 47 b
      → Without 47 d
      → is_empty a ≡ false
      → is_empty b ≡ false
      → is_empty d ≡ false
      → filter filled_part (split 47 (codes "/projects/" ++ (a ++ 47 ∷ (b ++ 47 ∷ d))))
        ≡ codes "projects" ∷ a ∷ b ∷ d ∷ []
  parts-three a b d wa wb wd fa fb fd =
      ap (filter filled_part) (
        split_self 47 _
        ∙ ap ([] ∷◌) (
            split-append 47 (codes "projects") (a ++ 47 ∷ (b ++ 47 ∷ d)) (ground arith)
            ∙ ap (codes "projects" ∷◌) (
                split-append 47 a (b ++ 47 ∷ d) wa
                ∙ ap (a ∷◌) (split-append 47 b d wb ∙ ap (b ∷◌) (split_of_Without 47 d wd)))))
      ∙ rw (fa, fb, fd) refl

  path_only-Plain : (s : Text) → Plain s → path_only (47 ∷ s) ≡ 47 ∷ s
  unfolding path_only
  path_only-Plain s h = rw (before_query-Plain (47 ∷ s) ((ground arith, ground arith), h)) refl

  read_project-carried :
      (id e : Text) (rest : List Text)
      → decode e ≡ some id
      → is_empty id ≡ false
      → read_parts decode (codes "projects" ∷ e ∷ rest) ≡ read_page decode id rest
  unfolding read_parts read_project text_eq
  read_project-carried id e rest back filled =
      ap (λ s. if is_empty s then project [] overview none true else read_page decode s rest)
        (ap decoded back)
      ∙ rw filled refl

  read_page-carried :
      (id : Text) (page : PageId) (rest : List Text)
      → read_page decode id (page_text page ∷ rest) ≡ read_task decode id page rest
  unfolding read_page
  read_page-carried id page rest = ap (λ o. page_route decode id o rest) (page_of-page_text page)

  projects_part : Plain (codes "projects/")
  projects_part = ground arith

  read_route-page :
      (id : Text) (page : PageId)
      → IsCarried id
      → is_empty id ≡ false
      → read_route decode (codes "/projects/" ++ (encode id ++ 47 ∷ page_text page))
        ≡ project id page none false
  unfolding read_route read_task
  read_route-page id page k filled =
      ap (λ s. read_parts decode (filter filled_part (split 47 s)))
        (path_only-Plain _ (
          All-append _ (codes "projects/") _ projects_part (
            All-append _ (encode id) _ k.plain
              ((ground arith, ground arith), page_text-Plain page))))
      ∙ ap (read_parts decode) (
          parts-two (encode id) (page_text page) k.whole (page_text-Without page) k.filled
            (page_text-filled page))
      ∙ read_project-carried id (encode id) (page_text page ∷ []) k.back filled
      ∙ read_page-carried id page []

  task_part : (task : Text) → IsCarried task → Plain (47 ∷ (codes "tasks" ++ 47 ∷ encode task))
  task_part task l = (
    (ground arith, ground arith),
    All-append (λ (c : ℕ). (c ≢ 63) × (c ≢ 35)) (codes "tasks") (47 ∷ encode task)
        (page_text-Plain tasks) ((ground arith, ground arith), l.plain),
  )

  read_route-task :
      (id task : Text)
      → IsCarried id
      → IsCarried task
      → is_empty id ≡ false
      → is_empty task ≡ false
      → read_route decode
          (codes "/projects/" ++ (encode id ++ 47 ∷ (codes "tasks" ++ 47 ∷ encode task)))
        ≡ project id tasks (some task) false
  unfolding read_route read_task
  read_route-task id task k l filled task_filled =
      ap (λ s. read_parts decode (filter filled_part (split 47 s)))
        (path_only-Plain _ (
          All-append _ (codes "projects/") _ projects_part (
            All-append _ (encode id) (47 ∷ (codes "tasks" ++ 47 ∷ encode task)) k.plain
              (task_part task l))))
      ∙ ap (read_parts decode) (
          parts-three (encode id) (codes "tasks") (encode task) k.whole (page_text-Without tasks)
            l.whole k.filled refl l.filled)
      ∙ read_project-carried id (encode id) (codes "tasks" ∷ encode task ∷ []) k.back filled
      ∙ read_page-carried id tasks (encode task ∷ [])
      ∙ ap (λ s. if is_empty s then project id tasks none true else project id tasks (some s) false)
          (ap decoded l.back)
      ∙ rw task_filled refl

  work_read : read_route decode (codes "/me/work") ≡ work false
  unfolding read_route path_only before_query read_parts text_eq split
  work_read = refl

  home_read : read_route decode (codes "/") ≡ project [] overview none false
  unfolding read_route path_only before_query read_parts split
  home_read = refl

  -- A route that the console can show is read back from the path that is written for it, if the codes
  -- of its texts are read back and keep clear of "/", "?" and "#".
  pub read_route-route_path :
      (r : Route) → IsCanonical r → read_route decode (route_path encode r) ≡ r
  unfolding route_path IsCanonical
  read_route-route_path (work invalid) h = rw h work_read
  read_route-route_path (project [] page task invalid) (p, t, i) = rw (p, t, i) (home_read)
  read_route-route_path (project (c ∷ id) page none invalid) (k, i) =
      rw i (read_route-page (c ∷ id) page k refl)
  read_route-route_path (project (c ∷ id) page (some task) invalid) (k, l, filled, p, i) =
      rw (i, p, filled) (read_route-task (c ∷ id) task k l refl filled)

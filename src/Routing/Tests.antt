-- ===== src/Routing/Tests.antt =====
-- web/src/routing.ts at concrete paths.
use accp.Prelude.{◌≡◌, refl, true, false, none, some, arith}
use accp.Text.{Text, codes, split, cons_part, text_eq}
use accp.Routing.{
  overview, tasks, project, before_query, path_only, page_of, read_page, read_project, read_parts,
  read_route, route_path,
}
use accp.Routing.RoundTrip.{IsCarried, IsCanonical, read_route-route_path}

-- The codes of these texts are the texts themselves.
abbrev plain : Text → Text
plain s = s

p1-IsCarried : IsCarried plain some (codes "p1")
p1-IsCarried = record { back = refl; filled = refl; plain = ground arith; whole = ground arith }

t7-IsCarried : IsCarried plain some (codes "t7")
t7-IsCarried = record { back = refl; filled = refl; plain = ground arith; whole = ground arith }

task_route-IsCanonical :
    IsCanonical plain some (project (codes "p1") tasks (some (codes "t7")) false)
unfolding IsCanonical
task_route-IsCanonical = (p1-IsCarried, t7-IsCarried, refl, refl, refl)

read_run :
    read_route some (codes "/projects/p1/nowhere?x=1") ≡ project (codes "p1") overview none true
unfolding read_route path_only before_query read_parts read_project read_page page_of split
    cons_part text_eq
read_run = refl

read_route-route_path_example :
    read_route some (route_path plain (project (codes "p1") tasks (some (codes "t7")) false))
    ≡ project (codes "p1") tasks (some (codes "t7")) false
read_route-route_path_example =
    read_route-route_path plain some (project (codes "p1") tasks (some (codes "t7")) false)
      task_route-IsCanonical

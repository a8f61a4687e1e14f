-- ===== src/Session/Tests.antt =====
-- web/src/app/useAuthSession.ts at concrete addresses.
use accp.Prelude.{
  ◌≡◌, refl, ◌⊎◌, subst, ap, sym, ◌∙◌, inl, inr, true, false, List, [], ◌∷◌, Option, none, some,
  if◌then◌else◌, any, All, Bool-cases,
}
use mathlib.Core.Option.{some-injective}
use accp.Text.{Text, codes, text_eq, starts_with}
use accp.Routing.{project, work, PageId, route_path}
use accp.Routing.RoundTrip.{IsCanonical, read_route-route_path}
use accp.ReturnTo.{Url, sanitize_return_to}
use accp.ReturnTo.Safe.{IsSafe, IsWellFormed, IsResolver}
use accp.Session.{
  Config, User, Location, Session, Event, step, run, start, route_at, on_user, on_config,
  has_manager, restore_return_to,
}
use accp.Session.Safe.{IsFit, run-start-IsTrue}
use accp.Session.Tokens.{brings, run-start-token}

-- A browser for addresses that are paths.
abbrev parse : Text → Option Url
parse t =
    if starts_with (codes "/") t
    then some (record { origin = codes "https://accp"; pathname = t; search = []; hash = [] })
    else none

abbrev locate : Text → Location
locate t = record { pathname = t; search = []; hash = [] }

abbrev encode : Text → Text
encode t = t

parse-IsResolver : IsResolver parse
parse-IsResolver t url one two h = elim (Bool-cases (starts_with (codes "/") t)) [
  | inl e ↦
      subst IsWellFormed
        (some-injective _ _ (
          sym (
            ap
              (λ b.
                if b
                then some
                    (record { origin = codes "https://accp"; pathname = t; search = []; hash = [] })
                else none)
              e)
          ∙ h))
        (unfold starts_with in record { path = e; query = refl; fragment = refl })
  | inr e ↦ cc (
      subst
        (λ b.
          (if b
            then some
                (record { origin = codes "https://accp"; pathname = t; search = []; hash = [] })
            else none)
          ≡ some url)
        e h)
]

abbrev oidc : Config
oidc = record {
  mode = codes "oidc";
  issuer = codes "https://id";
  client_id = codes "accp";
  public_url = codes "https://accp";
}

abbrev user : User
user = record { expired = false; access_token = codes "T"; return_to = some (codes "//evil") }

abbrev events : List (Event Text parse (codes "https://accp") locate encode some)
events =
    Event.config_arrives true oidc
    ∷ Event.user_arrives (some user)
    ∷ Event.navigates (work false)
    ∷ Event.unauthorized (codes "T")
    ∷ []

abbrev callback : Location
callback = locate (codes "/auth/callback")

events-IsFit : All (IsFit parse (codes "https://accp") locate encode some) events
unfolding IsCanonical route_path
events-IsFit = (refl, (refl, ((refl, refl), (refl, tt))))

run-start-IsTrue_example :
    ((run Text parse
        (codes "https://accp")
        locate
        encode
        some
        events
        (start Text parse (codes "https://accp") locate encode some callback)).route
      ≡ route_at Text parse
          (codes "https://accp")
          locate
          encode
          some
          (run Text parse
            (codes "https://accp")
            locate
            encode
            some
            events
            (start Text parse (codes "https://accp") locate encode some callback)).location)
    × All IsSafe
        (run Text parse
          (codes "https://accp")
          locate
          encode
          some
          events
          (start Text parse (codes "https://accp") locate encode some callback)).restored
run-start-IsTrue_example =
    run-start-IsTrue parse (codes "https://accp") locate encode some callback events
      parse-IsResolver events-IsFit

restored_run :
    (run Text parse
      (codes "https://accp")
      locate
      encode
      some
      events
      (start Text parse (codes "https://accp") locate encode some callback)).restored
    ≡ codes "/" ∷ []
unfolding run step start on_config has_manager on_user restore_return_to sanitize_return_to
    starts_with text_eq
restored_run = refl

abbrev last : Session Text
last =
    run Text parse (codes "https://accp") locate encode some events
      (start Text parse (codes "https://accp") locate encode some callback)

run-start-token_example :
    (last.token ≡ [])
    ⊎ (any (brings parse (codes "https://accp") locate encode some last.token) events ≡ true)
run-start-token_example =
    run-start-token parse (codes "https://accp") locate encode some callback events

-- The route is a page without a project, and a reload of its address shows the overview.
abbrev stray : Session Text
stray =
    step Text parse (codes "https://accp") locate encode some
      (Event.navigates (project [] PageId.tasks none false))
      (start Text parse (codes "https://accp") locate encode some (locate (codes "/")))

stray_run : stray.route ≡ project [] PageId.tasks none false
unfolding step start
stray_run = refl

stray_reload_run :
    route_at Text parse (codes "https://accp") locate encode some stray.location
    ≡ project [] PageId.overview none false
unfolding step start route_path IsCanonical
stray_reload_run =
    read_route-route_path encode some (project [] PageId.overview none false) (refl, refl, refl)

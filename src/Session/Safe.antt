-- ===== src/Session/Safe.antt =====
-- web/src/app/useAuthSession.ts: the way back from a login, the address and the route, the token.
use accp.Prelude.{
  ◌≡◌, refl, ap, sym, ◌∙◌, Bool, true, false, not, ◌&&◌, List, [], ◌∷◌, Option, none, some, All,
  All-append, either_way,
}
use accp.Text.{Text, codes, text_eq, is_empty}
use accp.Routing.{read_route, route_path}
use accp.Routing.RoundTrip.{IsCanonical, read_route-route_path}
use accp.ReturnTo.{Url, sanitize_return_to, build_return_to}
use accp.ReturnTo.Safe.{IsSafe, IsResolver, sanitize_return_to-IsSafe}
use accp.Session.{
  Config, User, Location, Session, or_value, restore_return_to, on_expired, on_config, on_user,
  on_restore_failure, dev_login, logout, go_href, on_pop_state, navigate, Event, step, run, start,
  route_at,
}

module _ {Err : Type 0} (parse : Text → Option Url) (origin : Text) (locate : Text → Location)
    (encode : Text → Text) (decode : Text → Option Text) where
  -- The route that is shown is the one that the address has, and all logins went back to the
  -- console's own site.
  record IsTrue (s : Session Err) : Type 0 where
    shown : s.route ≡ route_at Err parse origin locate encode decode s.location
    safe : All IsSafe s.restored

  -- A navigation is to a route that the console has, whose path the browser keeps as it is.
  abbrev pub IsFit : Event Err parse origin locate encode decode → Type 0
  IsFit (Event.navigates r) =
      IsCanonical encode decode r × ((locate (route_path encode r)).pathname ≡ route_path encode r)
  IsFit e = e ≡ e

  restore_return_to-IsTrue :
      (raw : Option Text) (s : Session Err)
      → IsResolver parse
      → All IsSafe s.restored
      → IsTrue (restore_return_to Err parse origin locate encode decode raw s)
  unfolding restore_return_to
  restore_return_to-IsTrue raw s w safe = record {
    shown = refl;
    safe =
        All-append IsSafe s.restored (sanitize_return_to parse origin raw ∷ []) safe
          (sanitize_return_to-IsSafe parse origin raw w, tt);
  }

  on_config-IsTrue :
      (ok : Bool) (c : Config) (s : Session Err)
      → IsTrue s
      → IsTrue (on_config Err parse origin locate encode decode ok c s)
  unfolding on_config
  on_config-IsTrue true c s v = record { shown = v.shown; safe = v.safe }
  on_config-IsTrue false c s v = record { shown = v.shown; safe = v.safe }

  on_user-IsTrue :
      (u : Option User) (s : Session Err)
      → IsResolver parse
      → IsTrue s
      → IsTrue (on_user Err parse origin locate encode decode u s)
  unfolding on_user
  on_user-IsTrue none s w v = record { shown = v.shown; safe = v.safe }
  on_user-IsTrue (some u) s w v =
      either_way IsTrue s.restoring
        (either_way IsTrue (s.active && not u.expired && not (is_empty u.access_token))
          (either_way IsTrue (text_eq s.location.pathname (codes "/auth/callback"))
            (restore_return_to-IsTrue u.return_to
              (record s { restoring = false; token = u.access_token }) w v.safe)
            (record { shown = v.shown; safe = v.safe }))
          (record { shown = v.shown; safe = v.safe }))
        v

  on_restore_failure-IsTrue :
      (e : Err) (s : Session Err)
      → IsTrue s
      → IsTrue (on_restore_failure Err parse origin locate encode decode e s)
  unfolding on_restore_failure
  on_restore_failure-IsTrue e s v =
      either_way IsTrue s.active (record { shown = v.shown; safe = v.safe }) v

  dev_login-IsTrue :
      (token : Text) (return_to : Option Text) (s : Session Err)
      → IsResolver parse
      → IsTrue s
      → IsTrue (dev_login Err parse origin locate encode decode token return_to s)
  unfolding dev_login
  dev_login-IsTrue token return_to s w v =
      let here = build_return_to s.location.pathname s.location.search s.location.hash in
      let back =
        restore_return_to-IsTrue (or_value return_to (sanitize_return_to parse origin (some here)))
          (record s { auth_error = none }) w v.safe in
      record { shown = back.shown; safe = back.safe }

  step-IsTrue :
      (e : Event Err parse origin locate encode decode) (s : Session Err)
      → IsResolver parse
      → IsFit e
      → IsTrue s
      → IsTrue (step Err parse origin locate encode decode e s)
  unfolding step
  step-IsTrue (Event.config_arrives ok c) s w fit v = on_config-IsTrue ok c s v
  step-IsTrue (Event.config_fails e) s w fit v = record { shown = v.shown; safe = v.safe }
  step-IsTrue (Event.user_arrives u) s w fit v = on_user-IsTrue u s w v
  step-IsTrue (Event.restore_fails e) s w fit v = on_restore_failure-IsTrue e s v
  step-IsTrue (Event.unauthorized t) s w fit v =
      unfold on_expired in record { shown = v.shown; safe = v.safe }
  step-IsTrue Event.access_expires s w fit v =
      unfold on_expired in record { shown = v.shown; safe = v.safe }
  step-IsTrue (Event.logs_in t return_to) s w fit v = dev_login-IsTrue t return_to s w v
  step-IsTrue (Event.redirect_fails e) s w fit v = record { shown = v.shown; safe = v.safe }
  step-IsTrue (Event.me_arrives d) s w fit v = record { shown = v.shown; safe = v.safe }
  step-IsTrue Event.logs_out s w fit v = unfold logout in record { shown = v.shown; safe = v.safe }
  step-IsTrue (Event.navigates r) s w (canonical, kept) v =
      unfold navigate in
      record {
        shown = sym (ap (read_route decode) kept ∙ read_route-route_path encode decode r canonical);
        safe = v.safe;
      }
  step-IsTrue (Event.opens href) s w fit v =
      unfold go_href in record { shown = refl; safe = v.safe }
  step-IsTrue (Event.pops l) s w fit v =
      unfold on_pop_state in record { shown = refl; safe = v.safe }
  step-IsTrue Event.unmounts s w fit v = record { shown = v.shown; safe = v.safe }

  run-IsTrue :
      (es : List (Event Err parse origin locate encode decode)) (s : Session Err)
      → IsResolver parse
      → All IsFit es
      → IsTrue s
      → IsTrue (run Err parse origin locate encode decode es s)
  unfolding run
  run-IsTrue [] s w fit v = v
  run-IsTrue (e ∷ es) s w (fit, fits) v = run-IsTrue es _ w fits (step-IsTrue e s w fit v)

  -- From the start on, the route that the console shows is the one that a reload of its address
  -- would show, and every address that a login has gone back to is a path on the console's own site.
  -- This is so if no navigation is to a page other than the overview without a project, to a task
  -- elsewhere than on the page of tasks, to a route that is invalid, or to an id whose code is not
  -- read back or has "/", "?" or "#"; if the browser keeps the paths of the navigations as they are;
  -- and if the parser gives for a text with one "/" at its start a path that begins with "/", and a
  -- query and a fragment that do not.
  pub run-start-IsTrue :
      (l : Location) (es : List (Event Err parse origin locate encode decode))
      → IsResolver parse
      → All IsFit es
      → ((run Err parse origin locate encode decode es
            (start Err parse origin locate encode decode l)).route
          ≡ route_at Err parse origin locate encode decode
              (run Err parse origin locate encode decode es
                (start Err parse origin locate encode decode l)).location)
        × All IsSafe
            (run Err parse origin locate encode decode es
              (start Err parse origin locate encode decode l)).restored
  unfolding start
  run-start-IsTrue l es w fit =
      let v =
        run-IsTrue es (start Err parse origin locate encode decode l) w fit
          (record { shown = refl; safe = tt }) in
      (v.shown, v.safe)

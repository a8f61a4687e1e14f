-- ===== src/Session.antt =====
-- web/src/app/useAuthSession.ts, with the navigation of web/src/app/App.tsx and the form of
-- web/src/app/LoginScreen.tsx that sets its state. `parse` is the constructor of `URL`, `locate` what
-- the browser's location is behind a `replaceState` or `pushState`, `decode` is
-- `decodeURIComponent`, `encode` `encodeURIComponent`.
pub mod Safe
pub mod Tokens
mod Tests
use accp.Prelude.{
  Bool, true, false, not, ◌&&◌, ◌||◌, List, [], ◌∷◌, ◌++◌, Option, none, some, if◌then◌else◌,
}
use accp.Text.{Text, codes, text_eq, is_empty}
use accp.ProjectData.{Doc}
use accp.Routing.{Route, read_route, route_path}
use accp.ReturnTo.{Url, sanitize_return_to, build_return_to}

-- `AuthConfig`
pub record Config : Type 0 where
  pub mode : Text
  pub issuer : Text
  pub client_id : Text
  pub public_url : Text

-- What the OIDC manager gives: `return_to` is the `returnTo` of its state, if that is a string.
pub record User : Type 0 where
  pub expired : Bool
  pub access_token : Text
  pub return_to : Option Text

pub record Location : Type 0 where
  pub pathname : Text
  pub search : Text
  pub hash : Text

pub data AuthError (Err : Type 0) : Type 0 where
  session_expired : AuthError Err
  unavailable : AuthError Err
  thrown : Err → AuthError Err

-- `restored` lists the addresses that a login has gone back to.
pub record Session (Err : Type 0) : Type 0 where
  pub config : Option Config
  pub token : Text
  pub auth_error : Option (AuthError Err)
  pub me : Option Doc
  pub route : Route
  pub location : Location
  pub restoring : Bool
  pub active : Bool
  pub restored : List Text

pub has_manager : Option Config → Bool
has_manager none = false
has_manager (some c) = text_eq c.mode (codes "oidc")

abbrev pub or_value : Option Text → Text → Option Text
or_value none d = some d
or_value (some s) d = some s

module _ (Err : Type 0) (parse : Text → Option Url) (origin : Text) (locate : Text → Location)
    (encode : Text → Text) (decode : Text → Option Text) where
  -- The route of an address.
  abbrev pub route_at : Location → Route
  route_at l = read_route decode l.pathname

  -- `restoreReturnTo`
  unfoldable pub restore_return_to : (raw : Option Text) → Session Err → Session Err
  restore_return_to raw s =
      let path = sanitize_return_to parse origin raw in
      record s {
        location = locate path;
        route = route_at (locate path);
        restored = s.restored ++ path ∷ [];
      }

  -- The callback of an `API`, and of the manager, when the session is over.
  unfoldable pub on_expired : Session Err → Session Err
  on_expired s = record s { token = []; me = none; auth_error = some session_expired }

  -- The answer with the configuration; with it, the manager is made and asked for its user.
  unfoldable pub on_config : (ok : Bool) → Config → Session Err → Session Err
  unfolding has_manager
  on_config false c s = record s { auth_error = some unavailable }
  on_config true c s = record s { config = some c; restoring = has_manager (some c) }

  abbrev pub take_user : User → Session Err → Session Err
  take_user u s =
      if s.active && not u.expired && not (is_empty u.access_token)
      then (let signed_in = record s { token = u.access_token } in
          if text_eq s.location.pathname (codes "/auth/callback")
          then restore_return_to u.return_to signed_in
          else signed_in)
      else s

  -- The user of the manager, or `null`.
  unfoldable pub on_user : Option User → Session Err → Session Err
  unfolding restore_return_to
  on_user none s = record s { restoring = false }
  on_user (some u) s = if s.restoring then take_user u (record s { restoring = false }) else s

  pub on_restore_failure : Err → Session Err → Session Err
  on_restore_failure e s =
      if s.active then record s { restoring = false; auth_error = some (thrown e) } else s

  -- The form of the local login, behind the call that tries the token.
  pub dev_login : (token : Text) → (return_to : Option Text) → Session Err → Session Err
  unfolding restore_return_to
  dev_login token return_to s =
      let here = build_return_to s.location.pathname s.location.search s.location.hash in
      let back =
        restore_return_to (or_value return_to (sanitize_return_to parse origin (some here)))
          (record s { auth_error = none }) in
      record back { token = token }

  -- `logout`, up to its first wait
  pub logout : Session Err → Session Err
  logout s = record s { token = []; me = none }

  -- `goHref`
  pub go_href : (href : Text) → Session Err → Session Err
  go_href href s = record s { location = locate href; route = route_at (locate href) }

  pub on_pop_state : Location → Session Err → Session Err
  on_pop_state l s = record s { location = l; route = route_at l }

  -- `navigate`
  pub navigate : Route → Session Err → Session Err
  navigate next s = record s { location = locate (route_path encode next); route = next }

  -- `unauthorized t`: a call of the `API` that was made for the token `t` is answered with 401.
  pub data Event : Type 0 where
    config_arrives : (ok : Bool) → Config → Event
    config_fails : Err → Event
    user_arrives : Option User → Event
    restore_fails : Err → Event
    unauthorized : (t : Text) → Event
    access_expires : Event
    logs_in : (t : Text) → (return_to : Option Text) → Event
    redirect_fails : Err → Event
    me_arrives : Doc → Event
    logs_out : Event
    navigates : Route → Event
    opens : (href : Text) → Event
    pops : Location → Event
    unmounts : Event

  unfoldable pub step : Event → Session Err → Session Err
  unfolding on_config on_user on_restore_failure on_expired dev_login logout navigate go_href
      on_pop_state
  step (config_arrives ok c) s = on_config ok c s
  step (config_fails e) s = record s { auth_error = some (thrown e) }
  step (user_arrives u) s = on_user u s
  step (restore_fails e) s = on_restore_failure e s
  step (unauthorized t) s = on_expired s
  step access_expires s = on_expired s
  step (logs_in t return_to) s = dev_login t return_to s
  step (redirect_fails e) s = record s { auth_error = some (thrown e) }
  step (me_arrives d) s = record s { me = some d }
  step logs_out s = logout s
  step (navigates next) s = navigate next s
  step (opens href) s = go_href href s
  step (pops l) s = on_pop_state l s
  step unmounts s = record s { active = false }

  unfoldable pub run : List Event → Session Err → Session Err
  unfolding step
  run [] s = s
  run (e ∷ es) s = run es (step e s)

  -- The state at the start, for the location of the page.
  unfoldable pub start : Location → Session Err
  start l = record {
    config = none;
    token = [];
    auth_error = none;
    me = none;
    route = route_at l;
    location = l;
    restoring = false;
    active = true;
    restored = [];
  }

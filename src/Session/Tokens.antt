-- ===== src/Session/Tokens.antt =====
-- web/src/app/useAuthSession.ts: where the token of the session comes from.
use accp.Prelude.{
  ◌≡◌, refl, ap, sym, subst, ◌∙◌, ◌⊎◌, inl, inr, Bool, true, false, not, ◌&&◌, ◌||◌, List, [], ◌∷◌,
  Option, none, some, any, arith, if_cases, either_way,
}
use accp.Text.{Text, codes, text_eq, text_eq_refl, is_empty}
use accp.ReturnTo.{Url}
use accp.Session.{
  Config, User, Location, session_expired, Session, restore_return_to, on_expired, on_config,
  on_user, on_restore_failure, dev_login, logout, go_href, on_pop_state, navigate, Event, step, run,
  start,
}

or_later : (x y : Bool) → y ≡ true → (x || y) ≡ true
or_later x y h = ground (arith, h)

module _ {Err : Type 0} (parse : Text → Option Url) (origin : Text) (locate : Text → Location)
    (encode : Text → Text) (decode : Text → Option Text) where
  -- The event brings a token: that of a user who has not expired, or the one of the local login.
  abbrev pub brings : Text → Event Err parse origin locate encode decode → Bool
  brings t (Event.user_arrives (some u)) = not u.expired && text_eq u.access_token t
  brings t (Event.logs_in t' return_to) = text_eq t' t
  brings t _ = false

  user_kept :
      (u : User) (s : Session Err)
      → ((on_user Err parse origin locate encode decode (some u) s).token ≡ s.token)
        ⊎ ((not u.expired
              && text_eq u.access_token
                  (on_user Err parse origin locate encode decode (some u) s).token)
            ≡ true)
  unfolding on_user restore_return_to
  user_kept u s =
      if_cases P s.restoring
        (λ _.
          if_cases P (s.active && not u.expired && not (is_empty u.access_token))
            (λ taken.
              either_way P (text_eq s.location.pathname (codes "/auth/callback"))
                (inr (fresh taken)) (inr (fresh taken)))
            (λ _. inl refl))
        (λ _. inl refl)
    where
      P : Session Err → Type 0
      P s' = (s'.token ≡ s.token) ⊎ ((not u.expired && text_eq u.access_token s'.token) ≡ true)

      fresh :
          (s.active && not u.expired && not (is_empty u.access_token)) ≡ true
          → (not u.expired && text_eq u.access_token u.access_token) ≡ true
      fresh taken = ground (arith, taken, text_eq_refl u.access_token)

  -- What a step does to the token.
  abbrev Keeps : Event Err parse origin locate encode decode → (before after : Text) → Type 0
  Keeps e before after = (after ≡ []) ⊎ ((after ≡ before) ⊎ (brings after e ≡ true))

  config_kept :
      (ok : Bool) (c : Config) (s : Session Err)
      → (on_config Err parse origin locate encode decode ok c s).token ≡ s.token
  unfolding on_config
  config_kept true c s = refl
  config_kept false c s = refl

  failure_kept :
      (e : Err) (s : Session Err)
      → (on_restore_failure Err parse origin locate encode decode e s).token ≡ s.token
  unfolding on_restore_failure
  failure_kept e s = either_way (λ (x : Session Err). x.token ≡ s.token) s.active refl refl

  step-token :
      (e : Event Err parse origin locate encode decode) (s : Session Err)
      → Keeps e s.token (step Err parse origin locate encode decode e s).token
  unfolding step
  step-token (Event.config_arrives ok c) s = inr (inl (config_kept ok c s))
  step-token (Event.config_fails e) s = inr (inl refl)
  step-token (Event.user_arrives none) s = unfold on_user in inr (inl refl)
  step-token (Event.user_arrives (some u)) s = inr (user_kept u s)
  step-token (Event.restore_fails e) s = inr (inl (failure_kept e s))
  step-token (Event.unauthorized t) s = unfold on_expired in inl refl
  step-token Event.access_expires s = unfold on_expired in inl refl
  step-token (Event.logs_in t return_to) s = unfold dev_login in inr (inr (text_eq_refl t))
  step-token (Event.redirect_fails e) s = inr (inl refl)
  step-token (Event.me_arrives d) s = inr (inl refl)
  step-token Event.logs_out s = unfold logout in inl refl
  step-token (Event.navigates r) s = unfold navigate in inr (inl refl)
  step-token (Event.opens href) s = unfold go_href in inr (inl refl)
  step-token (Event.pops l) s = unfold on_pop_state in inr (inl refl)
  step-token Event.unmounts s = inr (inl refl)

  run-token :
      (es : List (Event Err parse origin locate encode decode)) (s : Session Err)
      → ((run Err parse origin locate encode decode es s).token ≡ [])
        ⊎ (((run Err parse origin locate encode decode es s).token ≡ s.token)
            ⊎ (any (brings (run Err parse origin locate encode decode es s).token) es ≡ true))
  unfolding run
  run-token [] s = inr (inl refl)
  run-token (e ∷ es) s = elim (run-token es (step Err parse origin locate encode decode e s)) [
    | inl gone ↦ inl gone
    | inr (inr brought) ↦ inr (inr (or_later _ _ brought))
    | inr (inl kept) ↦ by_step (step-token e s) kept
  ]
    where
      last : Text
      last =
          (run Err parse origin locate encode decode es
            (step Err parse origin locate encode decode e s)).token

      by_step :
          Keeps e s.token (step Err parse origin locate encode decode e s).token
          → last ≡ (step Err parse origin locate encode decode e s).token
          → (last ≡ []) ⊎ ((last ≡ s.token) ⊎ (any (brings last) (e ∷ es) ≡ true))
      by_step (inl gone) kept = inl (kept ∙ gone)
      by_step (inr (inl same)) kept = inr (inl (kept ∙ same))
      by_step (inr (inr brought)) kept = inr (
          inr (
            ap (λ b. b || any (brings last) es)
              (subst (λ t. brings t e ≡ true) (sym kept) brought)))

  -- From the start on, the console is signed out, or its token is one that the manager gave for a user
  -- who had not expired, or that the form of the local login was sent with.
  pub run-start-token :
      (l : Location) (es : List (Event Err parse origin locate encode decode))
      → ((run Err parse origin locate encode decode es
            (start Err parse origin locate encode decode l)).token
          ≡ [])
        ⊎ (any
              (brings
                (run Err parse origin locate encode decode es
                  (start Err parse origin locate encode decode l)).token)
              es
            ≡ true)
  unfolding start
  run-start-token l es = elim (run-token es (start Err parse origin locate encode decode l)) [
    | inl gone ↦ inl gone
    | inr (inl same) ↦ inl same
    | inr (inr brought) ↦ inr brought
  ]

  -- An answer with 401 to a call that an earlier session has made ends the session of whoever has
  -- signed in since, whatever the two tokens are.
  pub late_unauthorized :
      (s : Session Err) (t t' : Text) (back back' : Option Text)
      → let s' =
          run Err parse origin locate encode decode
            (Event.logs_in t back
              ∷ Event.unauthorized t
              ∷ Event.logs_in t' back'
              ∷ Event.unauthorized t
              ∷ [])
            s in
        (s'.token ≡ []) × (s'.me ≡ none) × (s'.auth_error ≡ some session_expired)
  unfolding run step on_expired
  late_unauthorized s t t' back back' = (refl, refl, refl)

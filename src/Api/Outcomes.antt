-- ===== src/Api/Outcomes.antt =====
-- What `call` gives for each answer.
use accp.Prelude.{
  ℕ, suc, ◌≡◌, refl, ◌≢◌, ◌↔◌, Bool, true, false, ◌&&◌, ◌||◌, Option, none, some, arith, leb, ◌==◌,
  if◌then◌else◌,
}
use accp.Text.{Text}
use accp.Json.{Json, null}
use accp.Api.{
  Api, Call, is_write, Response, rejected, response, ok, unknown_result, is_ok, error_of, settle,
}

error_of-ne-ok : (status : ℕ) (content v : Json) (b : Bool) → error_of status content ≢ ok v b
unfolding error_of
error_of-ne-ok status null v b = cc
error_of-ne-ok status _ v b = cc

error_of-ne-unknown_result :
    (status : ℕ) (content : Json) → error_of status content ≢ unknown_result
unfolding error_of
error_of-ne-unknown_result status null = cc
error_of-ne-unknown_result status _ = cc

module _ (c : Call) (key : Option Text) where
  abbrev pub is_unauthorized : Response → Bool
  is_unauthorized rejected = false
  is_unauthorized (response status content replayed) = status == 401

  -- An answer with the status 401, and no other, is reported as an expired session, once.
  pub expirations-settle :
      (r : Response) (api : Api)
      → (settle c key r api).1.expirations
        ≡ (if is_unauthorized r then suc api.expirations else api.expirations)
  unfolding settle
  expirations-settle rejected api = refl
  expirations-settle (response status none replayed) api = ground arith
  expirations-settle (response status (some v) replayed) api = ground arith

  -- A call succeeds exactly where the status is from 200 to 299 and the body can be read; it gives
  -- that body, and whether the server says that it answered from its record.
  pub settle-eq-ok_iff :
      (r : Response) (api : Api) (content : Json) (replayed : Bool)
      → ((settle c key r api).0 ≡ ok content replayed)
        ↔ ((status : ℕ) × (r ≡ response status (some content) replayed) × (is_ok status ≡ true))
  unfolding settle
  settle-eq-ok_iff rejected api content replayed = (ground arith, λ h. cc h.1)
  settle-eq-ok_iff (response status none b) api content replayed = (ground arith, λ h. cc h.1)
  settle-eq-ok_iff (response status (some v) b) api content replayed = (
    λ e. (
      status,
      ground (arith, error_of-ne-ok status v content replayed),
      ground (arith, error_of-ne-ok status v content replayed),
    ),
    λ h. ground (arith, h.1, h.2),
  )

  -- There is no answer, or one with a success or a server error as its status and a body that cannot
  -- be read.
  abbrev pub is_unreadable : Response → Bool
  is_unreadable rejected = true
  is_unreadable (response status none replayed) = is_ok status || leb 500 status
  is_unreadable (response status (some _) replayed) = false

  -- The result is given as unknown exactly for a write whose caller asks for this, where there is no
  -- answer, or one with a success or a server error as its status and a body that cannot be read.
  pub settle-eq-unknown_result_iff :
      (r : Response) (api : Api)
      → ((settle c key r api).0 ≡ unknown_result)
        ↔ ((is_write c && c.uncertain_result && is_unreadable r) ≡ true)
  unfolding settle
  settle-eq-unknown_result_iff rejected api = (ground arith, ground arith)
  settle-eq-unknown_result_iff (response status none b) api = (ground arith, ground arith)
  settle-eq-unknown_result_iff (response status (some v) b) api =
      (ground (arith, error_of-ne-unknown_result status v), ground arith)

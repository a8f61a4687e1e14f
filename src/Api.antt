-- ===== src/Api.antt =====
-- web/src/api.ts: the client of the HTTP API. `call` stands in two parts, before and behind the
-- wait for the response, so that calls may overlap; the map of keys is the state that they share.
pub mod Keys
pub mod Outcomes
pub mod Pages
pub mod Download
mod Tests
use accp.Prelude.{
  ℕ, suc, ◌+◌, Bool, true, false, not, ◌&&◌, ◌||◌, List, [], ◌∷◌, ◌++◌, Option, none, some, ltb,
  leb, ◌==◌, if◌then◌else◌,
}
use accp.Text.{Text, codes, is_empty}
use accp.Json.{Json, null, bool, num, str, arr, obj, property}
use accp.Assoc.{lookup, insert, delete}

-- `API`: the token, `uncertainWrites`, and how often `onExpired` was called.
pub record Api : Type 0 where
  pub token : Text
  pub uncertain_writes : List (Text × Text)
  pub expirations : ℕ

-- The arguments of `call`: a body is the text that `JSON.stringify` gives for it, a version its
-- decimal digits.
pub record Call : Type 0 where
  pub path : Text
  pub body : Option Text
  pub version : Option Text
  pub idempotency_key : Option Text
  pub uncertain_result : Bool

abbrev pub or_else : Option Text → Text → Text
or_else none d = d
or_else (some s) d = if is_empty s then d else s

abbrev text_or : Option Text → Text → Text
text_or none d = d
text_or (some s) d = s

pub is_write : Call → Bool
is_write c = elim c.body [ none ↦ false | some _ ↦ true ]

-- `operation`
pub operation : Call → Text
operation c = elim c.body [
  | none ↦ []
  | some body ↦ c.path ++ (10 ∷ (text_or c.version [] ++ (10 ∷ body)))
]

pub record Request : Type 0 where
  pub method : Text
  pub path : Text
  pub authorization : Text
  pub content_type : Option Text
  pub idempotency_key : Option Text
  pub if_match : Option Text
  pub body : Option Text

abbrev quoted : Text → Text
quoted v = 34 ∷ (v ++ 34 ∷ [])

abbrev pub chosen_key : Api → Call → (uuid : Text) → Text
chosen_key api c uuid =
    or_else c.idempotency_key (or_else (lookup (operation c) api.uncertain_writes) uuid)

-- The part of `call` up to the request; `uuid` is what `crypto.randomUUID()` gives.
pub prepare : Call → (uuid : Text) → Api → Request × Api
unfolding is_write operation
prepare c uuid api =
    let key = chosen_key api c uuid in
    (
      record {
        method = if is_write c then codes "POST" else codes "GET";
        path = codes "/api/v1" ++ c.path;
        authorization = codes "Bearer " ++ api.token;
        content_type = if is_write c then some (codes "application/json") else none;
        idempotency_key = if is_write c then some key else none;
        if_match = elim c.version [ none ↦ none | some v ↦ some (quoted v) ];
        body = c.body;
      },
      if is_write c
          then record api { uncertain_writes = insert (operation c) key api.uncertain_writes }
          else api,
    )

-- What `fetch` and `res.json()` give: a rejection, or a status with the parsed body, which is `none`
-- where it is no JSON, and whether the header `Idempotency-Replayed` is "true".
pub data Response : Type 0 where
  rejected : Response
  response : (status : ℕ) (content : Option Json) (replayed : Bool) → Response

-- What `call` gives. `broken` is an error of the network or of the parser, passed on.
pub data Result : Type 0 where
  ok : (content : Json) (replayed : Bool) → Result
  api_error : (status : ℕ) (code detail trace : Option Json) → Result
  unknown_result : Result
  broken : Result

abbrev pub is_ok : ℕ → Bool
is_ok status = leb 200 status && leb status 299

abbrev member_of : Text → Json → Option Json
member_of key (obj ms) = property key ms
member_of key _ = none

-- `new ApiError(…)`: reading a property of `null` throws.
pub error_of : ℕ → Json → Result
error_of status null = broken
error_of status content =
    api_error status (member_of (codes "code") content) (member_of (codes "detail") content)
      (member_of (codes "trace_id") content)

-- `key` is what the request carries as its idempotency key.
pub settle : Call → (key : Option Text) → Response → Api → Result × Api
unfolding is_write operation error_of
settle c key rejected api =
    (if is_write c && c.uncertain_result then unknown_result else broken, api)
settle c key (response status content replayed) api =
    let forgotten =
      if is_write c && ltb status 500
      then record api { uncertain_writes = delete (operation c) api.uncertain_writes }
      else api in
    let noticed =
      if status == 401
      then record forgotten { expirations = suc forgotten.expirations }
      else forgotten in
    elim content [
      | some data_value ↦ (
        if not (is_ok status) then error_of status data_value else ok data_value replayed,
        noticed,
      )
      | none ↦
          if is_write c && c.uncertain_result && (is_ok status || leb 500 status)
          then (
            unknown_result,
            record noticed {
              uncertain_writes =
                  insert (operation c) (text_or key (codes "undefined")) noticed.uncertain_writes;
            },
          )
          else (broken, noticed)
    ]

-- A call from its start to its end, with nothing in between.
pub call : Call → (uuid : Text) → (Request → Response) → Api → Result × Api
unfolding prepare settle
call c uuid server api =
    let (req, api') = prepare c uuid api in settle c req.idempotency_key (server req) api'

-- ===== src/Api/Tests.antt =====
-- Runs of the API client, and the theorems at them.
use accp.Prelude.{ℕ, ◌≡◌, refl, ◌↔◌, true, false, ◌&&◌, [], ◌∷◌, none, some, arith, if◌then◌else◌}
use accp.Text.{Text, codes, text_eq, starts_with, index_of}
use accp.Json.{null}
use accp.Api.{
  Api, Call, is_write, operation, prepare, Response, rejected, response, unknown_result, settle,
  call,
}
use accp.Api.Keys.{uncertain, begin, run, key-retry}
use accp.Api.Outcomes.{is_unreadable, settle-eq-unknown_result_iff}
use accp.Api.Pages.{PageResult, page, listed, Chain, last, more, all, page_path, all-Chain}

abbrev client : Api
client = record { token = codes "t"; uncertain_writes = []; expirations = 0 }

abbrev create : Call
create = record {
  path = codes "/projects";
  body = some (codes "{}");
  version = none;
  idempotency_key = none;
  uncertain_result = true;
}

abbrev read : Call
read = record create { body = none }

create_run : (call create (codes "u1") (λ request. rejected) client).0 ≡ unknown_result
unfolding call
create_run = refl

key-retry_example :
    (prepare create (codes "u2") (
      run
        (begin read (codes "u3") ∷ [])
        (settle create
          (prepare create (codes "u1") client).0.idempotency_key
          rejected
          (prepare create (codes "u1") client).1).1)).0.idempotency_key
    ≡ (if uncertain create rejected
        then (prepare create (codes "u1") client).0.idempotency_key
        else some (codes "u2"))
unfolding is_write text_eq operation
key-retry_example =
    key-retry create refl refl (codes "u1") (codes "u2") (λ e. cc) rejected
      (begin read (codes "u3") ∷ []) client (refl, tt)

abbrev expired : Response
expired = response 401 (some null) false

settle-eq-unknown_result_iff_example :
    ((settle create (some (codes "u1")) (response 200 none false) client).0 ≡ unknown_result) ↔ (
      (is_write create
        && create.uncertain_result
        && is_unreadable create (some (codes "u1")) (response 200 none false))
      ≡ true)
settle-eq-unknown_result_iff_example =
    settle-eq-unknown_result_iff create (some (codes "u1")) (response 200 none false) client

-- A server of two pages.
abbrev same_text : Text → Text
same_text s = s

abbrev two_pages : Text → PageResult ℕ ℕ
two_pages path =
    if text_eq path (codes "/x?limit=100&cursor=c")
    then page (3 ∷ []) []
    else page (1 ∷ 2 ∷ []) (codes "c")

two_pages-Chain : Chain same_text two_pages (codes "/x") 2 [] (listed (1 ∷ 2 ∷ 3 ∷ []))
unfolding page_path text_eq starts_with index_of
two_pages-Chain = more refl (λ e. cc) (last refl)

all-Chain_example : all same_text two_pages (codes "/x") 5 ≡ listed (1 ∷ 2 ∷ 3 ∷ [])
all-Chain_example = all-Chain same_text two_pages (codes "/x") 5 2 two_pages-Chain (omega arith)

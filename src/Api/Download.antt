-- ===== src/Api/Download.antt =====
-- `API.download`: a file with its name; and `short`.
mod Tests
use accp.Prelude.{
  ℕ, suc, ◌+◌, ◌-◌, ◌≡◌, refl, ap, sym, ◌∙◌, ◌≢◌, inl, inr, Bool, true, false, not, List, [], ◌∷◌,
  ◌++◌, Option, none, some, ◌==◌, if◌then◌else◌, length, take, drop, arith, Bool-cases,
}
use accp.Text.{Text, codes, is_empty, starts_with, index_of, Without}
use accp.Text.Search.{index_of-cons}
use accp.Json.{Json, null, str, obj, property}
use accp.Api.{Api, is_ok}

-- `[^"]+` and what it takes
pub until_quote : Text → Text
until_quote [] = []
until_quote (c ∷ s) = if c == 34 then [] else c ∷ until_quote s

abbrev pub without_quote : Text → Text
without_quote [] = []
without_quote (c ∷ s) = if c == 34 then s else c ∷ s

abbrev pub filled : Text → Option Text
filled [] = none
filled (c ∷ s) = some (c ∷ s)

-- What `/filename="?([^"]+)"?/` captures where the text begins with `filename=`. Without a name behind
-- a quote there is no match, since the name cannot begin with that quote.
abbrev pub name_at : Text → Option Text
name_at s =
    if starts_with (codes "filename=") s
    then filled (until_quote (without_quote (drop 9 s)))
    else none

abbrev pub or_later : Option Text → Option Text → Option Text
or_later none o = o
or_later (some s) o = some s

-- `exec`: the leftmost match
pub file_name_in : Text → Option Text
unfolding starts_with until_quote
file_name_in [] = none
file_name_in (c ∷ s) = or_later (name_at (c ∷ s)) (file_name_in s)

abbrev pub or_text : Option Text → Text → Text
or_text none d = d
or_text (some s) d = s

-- `match?.[1] ?? "audit-export"`, of the header `Content-Disposition`
pub file_name : Option Text → Text
unfolding file_name_in
file_name disposition = or_text (file_name_in (or_text disposition [])) (codes "audit-export")

-- `value ?? d`
abbrev pub or_string : Option Json → Text → Json
or_string none d = str d
or_string (some null) d = str d
or_string (some v) d = v

abbrev member_of : Text → Json → Option Json
member_of key (obj ms) = property key ms
member_of key _ = none

module _ (Blob : Type 0) where
  -- What `fetch` gives: a rejection, or a status with the body, which may be no JSON, and the header.
  pub data FileResponse : Type 0 where
    rejected : FileResponse
    response :
        (status : ℕ) (content : Option Json) (blob : Blob) (disposition : Option Text)
        → FileResponse

  pub data FileResult : Type 0 where
    file : Blob → (filename : Text) → FileResult
    api_error : (status : ℕ) (code detail trace : Json) → FileResult
    broken : FileResult

  -- The error of a response; reading a property of `null` throws.
  pub file_error : ℕ → Option Json → FileResult
  file_error status (some null) = broken
  file_error status none = api_error status (str (codes "ERROR")) (str []) (str [])
  file_error status (some v) =
      api_error status (or_string (member_of (codes "code") v) (codes "ERROR"))
        (or_string (member_of (codes "detail") v) [])
        (or_string (member_of (codes "trace_id") v) [])

  pub download : FileResponse → Api → FileResult × Api
  unfolding file_error file_name
  download rejected api = (broken, api)
  download (response status content blob disposition) api = (
    if not (is_ok status) then file_error status content else file blob (file_name disposition),
    if status == 401 then record api { expirations = suc api.expirations } else api,
  )

pub short : Option Text → Text
short none = 0x2014 ∷ []
short (some value) =
    if is_empty value then 0x2014 ∷ [] else take 8 value ++ (0x2026 ∷ drop (length value - 6) value)

until_quote-name : (name after : Text) → Without 34 name → until_quote (name ++ 34 ∷ after) ≡ name
unfolding until_quote
until_quote-name [] after h = refl
until_quote-name (c ∷ name) after (h, hs) = ground (arith, h, until_quote-name name after hs)

drop-append : (s t : Text) → drop (length s) (s ++ t) ≡ t
drop-append [] t = refl
drop-append (c ∷ s) t = drop-append s t

file_name_in-index_of :
    (s : Text) (i : ℕ) (name : Text)
    → index_of (codes "filename=") s ≡ some i
    → name_at (drop i s) ≡ some name
    → file_name_in s ≡ some name
unfolding file_name_in
file_name_in-index_of [] i name e h = unfold index_of in cc e
file_name_in-index_of (c ∷ s) i name e h = elim (index_of-cons (codes "filename=") c s i e) [
  | inl (here, at_start) ↦
      ap (λ o. or_later o (file_name_in s)) (sym (ap (λ k. name_at (drop k (c ∷ s))) at_start) ∙ h)
  | inr (not_here, (j, later, e')) ↦
      rw not_here
        (file_name_in-index_of s j name later (sym (ap (λ k. name_at (drop k (c ∷ s))) e') ∙ h))
]

filled-eq : (name : Text) → name ≢ [] → filled name ≡ some name
filled-eq [] h = absurd (h refl)
filled-eq (c ∷ s) h = refl

-- A file is given the name that stands in quotes behind the first `filename=` of the header, whatever
-- stands before and behind, if the name is not empty and has no quote in it.
pub file_name-quoted :
    (before name after : Text)
    → name ≢ []
    → Without 34 name
    → index_of (codes "filename=") (before ++ (codes "filename=" ++ 34 ∷ (name ++ 34 ∷ after)))
      ≡ some (length before)
    → file_name (some (before ++ (codes "filename=" ++ 34 ∷ (name ++ 34 ∷ after)))) ≡ name
unfolding file_name
file_name-quoted before name after full plain first =
    ap (λ o. or_text o (codes "audit-export"))
      (file_name_in-index_of _ (length before) name first
        (ap name_at (drop-append before _) ∙ named))
  where
    named : name_at (codes "filename=" ++ 34 ∷ (name ++ 34 ∷ after)) ≡ some name
    named =
        unfold starts_with in (ap filled (until_quote-name name after plain) ∙ filled-eq name full)

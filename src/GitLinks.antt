-- ===== src/GitLinks.antt =====
-- web/src/gitProviders.ts and web/src/archiveBlockers.ts: the address of a repository in one form,
-- and the list of what blocks an archive. `parse` is the constructor of `URL`, with `none` where it
-- throws, `lower` is `toLowerCase`.
pub mod Blockers
pub mod Paths
pub mod Twice
mod Tests
use accp.Prelude.{
  ℕ, zero, suc, ◌+◌, ◌-◌, Bool, true, false, not, ◌&&◌, ◌||◌, List, [], ◌∷◌, ◌++◌, map, Option,
  none, some, ◌==◌, leb, ltb, if◌then◌else◌, any, filter, take, length,
}
use accp.Text.{Text, codes, text_eq, is_empty, trim, is_space, split, index_of, starts_with}

pub data GitProvider : Type 0 where
  github : GitProvider
  gitlab : GitProvider

pub record Url : Type 0 where
  pub protocol : Text
  pub hostname : Text
  pub username : Text
  pub password : Text
  pub search : Text
  pub hash : Text
  pub pathname : Text

-- the `i` flag, on ASCII
abbrev pub fold_case : Text → Text
fold_case = map (λ c. if leb 65 c && leb c 90 then c + 32 else c)

abbrev pub is_git : Text → Bool
is_git s = text_eq (fold_case s) (codes ".git")

-- `replace(/\.git$/i, "")`
unfoldable pub strip_git : Text → Text
strip_git [] = []
strip_git (c ∷ s) = let rest = strip_git s in if is_git (c ∷ s) then [] else c ∷ rest

unfoldable pub slashes_start : Text → Text
slashes_start [] = []
slashes_start (c ∷ s) = let rest = slashes_start s in if c == 47 then rest else c ∷ s

unfoldable pub slashes_end : Text → Text
slashes_end [] = []
slashes_end (c ∷ s) = elim (slashes_end s) [
  | [] ↦ if c == 47 then [] else c ∷ []
  | d ∷ t ↦ c ∷ d ∷ t
]

-- `replace(/^\/+|\/+$/g, "")`
unfoldable pub strip_slashes : Text → Text
unfolding slashes_start slashes_end
strip_slashes s = slashes_end (slashes_start s)

abbrev pub is_alnum : ℕ → Bool
is_alnum c = leb 65 c && leb c 90 || leb 97 c && leb c 122 || leb 48 c && leb c 57

abbrev pub in_segment : ℕ → Bool
in_segment c = is_alnum c || c == 95 || c == 46 || c == 45

abbrev pub every : {A : Type 0} → (A → Bool) → List A → Bool
every p [] = true
every p (x ∷ xs) = p x && every p xs

-- `gitlabSegment`
abbrev pub gitlab_segment : Text → Bool
gitlab_segment [] = false
gitlab_segment (c ∷ s) = is_alnum c && every in_segment s

abbrev pub is_dots : Text → Bool
is_dots s = text_eq s (codes ".") || text_eq s (codes "..")

-- The tests of `gitlabPath`.
abbrev pub is_path : Text → Bool
is_path name =
    not (is_empty name)
    && leb (length name) 512
    && leb 2 (length (split 47 name))
    && every (λ s. not (is_dots s) && gitlab_segment s) (split 47 name)

abbrev pub checked : Text → Option Text
checked name = if is_path name then some name else none

unfoldable pub gitlab_path : Text → Option Text
unfolding strip_slashes strip_git
gitlab_path raw = checked (strip_slashes (strip_git raw))

-- The address of a project.
abbrev pub address : (host name : Text) → Text
address host name = codes "https://" ++ (host ++ 47 ∷ name)

abbrev pub address_in : (host : Text) → Option Text → Option Text
address_in host none = none
address_in host (some name) = some (address host name)

abbrev pub has_extras : Url → Bool
has_extras url =
    not (is_empty url.username)
    || not (is_empty url.password)
    || not (is_empty url.search)
    || not (is_empty url.hash)

abbrev pub includes_scheme : Text → Bool
includes_scheme value = elim (index_of (codes "://") value) [ none ↦ false | some _ ↦ true ]

module _ (parse : Text → Option Url) (lower : Text → Text) where
  abbrev pub of_url : Option Url → Option Text
  of_url none = none
  of_url (some url) =
      if not (text_eq url.protocol (codes "https:"))
      then none
      else (if has_extras url
          then none
          else (if is_empty (lower url.hostname)
              then none
              else address_in (lower url.hostname) (gitlab_path url.pathname)))

  unfoldable pub normalize_gitlab_url : Text → Option Text
  unfolding gitlab_path
  normalize_gitlab_url raw =
      let value = trim raw in
      if is_empty value
      then none
      else (if not (includes_scheme value)
          then (if any is_space value
              then none
              else address_in (codes "gitlab.com") (gitlab_path value))
          else of_url (parse value))

  -- `/^https?:\/\//i`
  pub has_http : Text → Bool
  has_http value =
      starts_with (codes "http://") (fold_case value)
      || starts_with (codes "https://") (fold_case value)

  -- `/^[^/\s]+\/[^/\s]+$/`
  abbrev pub is_pair : List Text → Bool
  is_pair (a ∷ b ∷ []) =
      not (is_empty a) && not (any is_space a) && not (is_empty b) && not (any is_space b)
  is_pair _ = false

  abbrev pub github_parts : List Text → Option Text
  github_parts (a ∷ b ∷ []) =
      if is_empty a || is_empty b
      then none
      else (if is_dots a || is_dots b
          then none
          else some (codes "https://github.com/" ++ (a ++ 47 ∷ b)))
  github_parts _ = none

  abbrev pub of_github : Option Url → Option Text
  of_github none = none
  of_github (some url) =
      if not (text_eq url.protocol (codes "https:"))
      then none
      else (if not (text_eq (lower url.hostname) (codes "github.com"))
          then none
          else (if has_extras url
              then none
              else github_parts (split 47 (strip_slashes (strip_git url.pathname)))))

  pub normalize_repository_url : Text → Option Text
  unfolding has_http
  normalize_repository_url raw =
      let value = trim raw in
      if is_empty value
      then none
      else of_github (
          parse (
            if not (has_http value) && is_pair (split 47 value)
            then codes "https://github.com/" ++ value
            else value))

  pub normalize_repository : GitProvider → Text → Option Text
  unfolding normalize_gitlab_url normalize_repository_url
  normalize_repository gitlab raw = normalize_gitlab_url raw
  normalize_repository github raw = normalize_repository_url raw

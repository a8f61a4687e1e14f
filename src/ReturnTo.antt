-- ===== src/ReturnTo.antt =====
-- web/src/returnTo.ts: where the console goes back to behind a login. `parse` is the constructor of
-- `URL` at the console's origin, with `none` where it throws.
pub mod Safe
mod Tests
use accp.Prelude.{
  Bool, true, false, not, ◌||◌, List, [], ◌∷◌, ◌++◌, Option, none, some, ◌==◌, if◌then◌else◌, any,
}
use accp.Text.{Text, codes, text_eq, is_empty, starts_with}

pub record Url : Type 0 where
  pub origin : Text
  pub pathname : Text
  pub search : Text
  pub hash : Text

pub build_return_to : (pathname search hash : Text) → Text
build_return_to pathname search hash = pathname ++ (search ++ hash)

-- The checks of the parsed address.
abbrev pub sanitize_url : (origin : Text) → Option Url → Text
sanitize_url origin none = codes "/"
sanitize_url origin (some url) =
    if not (text_eq url.origin origin)
    then codes "/"
    else (if starts_with (codes "//") url.pathname
        then codes "/"
        else (if text_eq url.pathname (codes "/auth/callback")
              || text_eq url.pathname (codes "/dev-login")
            then codes "/"
            else url.pathname ++ (url.search ++ url.hash)))

-- A value that is no string is `none`.
unfoldable pub sanitize_return_to :
    (parse : Text → Option Url) → (origin : Text) → Option Text → Text
sanitize_return_to parse origin none = codes "/"
sanitize_return_to parse origin (some value) =
    if is_empty value
    then codes "/"
    else (if not (starts_with (codes "/") value)
          || starts_with (codes "//") value
          || any (λ c. c == 92) value
        then codes "/"
        else sanitize_url origin (parse value))

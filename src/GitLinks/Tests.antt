-- ===== src/GitLinks/Tests.antt =====
-- web/src/gitProviders.ts at concrete addresses.
use mathlib.Core.Option.{some-injective}
use accp.Prelude.{
  ◌≡◌, refl, ap, sym, ◌∙◌, subst, inl, inr, false, Option, none, some, if◌then◌else◌, drop,
  Bool-cases,
}
use accp.Text.{Text, codes, text_eq, trim, starts_with, index_of, split, cons_part, is_space}
use accp.GitLinks.{Url, address, normalize_gitlab_url, gitlab_path, strip_git, strip_slashes}
use accp.GitLinks.Paths.{ends_git}
use accp.GitLinks.Twice.{plain_url, ReadsBack, normalize-normalize}

-- A parser that knows the addresses of one host.
abbrev parse : Text → Option Url
parse t =
    if starts_with (codes "https://gitlab.com/") t
    then some (plain_url (codes "gitlab.com") (drop 19 t))
    else none

abbrev lower : Text → Text
lower t = t

known_host : (v : Text) (url : Url) → parse v ≡ some url → codes "gitlab.com" ≡ url.hostname
known_host v url h = elim (Bool-cases (starts_with (codes "https://gitlab.com/") v)) [
  | inl e ↦
      ap (λ (u : Url). u.hostname)
        (some-injective _ _ (
          sym (ap (λ b. if b then some (plain_url (codes "gitlab.com") (drop 19 v)) else none) e)
          ∙ h))
  | inr e ↦ cc (
      subst
        (λ b. (if b then some (plain_url (codes "gitlab.com") (drop 19 v)) else none) ≡ some url) e
        h)
]

known_read :
    (name : Text)
    → parse (address (codes "gitlab.com") name) ≡ some (plain_url (codes "gitlab.com") name)
unfolding starts_with
known_read name = refl

parse-ReadsBack : ReadsBack parse lower
parse-ReadsBack = record {
  again = λ v url name e secure filled good.
      subst (λ host. parse (address host name) ≡ some (plain_url host name)) (known_host v url e)
        (known_read name);
  known = λ name good. known_read name;
  low = λ t. refl;
  low_known = refl;
}

abbrev typed : Text
typed = codes " ops/tools/Runner.git "

typed_run :
    normalize_gitlab_url parse lower typed ≡ some (codes "https://gitlab.com/ops/tools/Runner")
unfolding normalize_gitlab_url trim index_of starts_with gitlab_path split cons_part text_eq
    strip_git strip_slashes is_space
typed_run = refl

clear : ends_git (codes "https://gitlab.com/ops/tools/Runner") ≡ false
unfolding text_eq
clear = refl

normalize-normalize_example :
    normalize_gitlab_url parse lower (codes "https://gitlab.com/ops/tools/Runner")
    ≡ some (codes "https://gitlab.com/ops/tools/Runner")
normalize-normalize_example =
    normalize-normalize parse lower typed (codes "https://gitlab.com/ops/tools/Runner")
      parse-ReadsBack typed_run clear

-- With a slash behind it, ".git" stays, and the same project has another address.
slash_run :
    (normalize_gitlab_url parse lower (codes "https://gitlab.com/ops/runner.git/")
      ≡ some (codes "https://gitlab.com/ops/runner.git"))
    × (normalize_gitlab_url parse lower (codes "https://gitlab.com/ops/runner.git")
        ≡ some (codes "https://gitlab.com/ops/runner"))
unfolding normalize_gitlab_url trim index_of starts_with gitlab_path split cons_part text_eq
    strip_git strip_slashes is_space
slash_run = (refl, refl)

-- ===== src/GitLinks/Twice.antt =====
-- web/src/gitProviders.ts: an address in the one form is left as it is.
use mathlib.Core.Option.{some-injective}
use accp.Prelude.{
  ◌≡◌, refl, ap, sym, subst, ◌∙◌, inl, inr, Bool, true, false, not, ◌||◌, [], ◌∷◌, ◌++◌,
  append_assoc, Option, none, some, if◌then◌else◌, any, arith, Bool-cases,
}
use accp.Text.{
  Text, codes, text_eq, is_empty, trim, trim_start, trim_end, is_space, index_of, starts_with,
}
use accp.GitLinks.{
  strip_slashes, strip_git, Url, is_path, gitlab_path, address, address_in, has_extras,
  includes_scheme, of_url, normalize_gitlab_url,
}
use accp.GitLinks.Paths.{
  ends_git, checked-some, gitlab_path_again, path-IsSolid, path_filled, trim_end-append,
}

-- What the parser gives for an address.
abbrev pub plain_url : (host name : Text) → Url
plain_url host name = record {
  protocol = codes "https:";
  hostname = host;
  username = [];
  password = [];
  search = [];
  hash = [];
  pathname = 47 ∷ name;
}

ends_git_of : (p s : Text) → ends_git (p ++ s) ≡ false → ends_git s ≡ false
ends_git_of [] s h = h
ends_git_of (c ∷ p) s h = ends_git_of p s (later _ _ h)
  where
    later : (a b : Bool) → (a || b) ≡ false → b ≡ false
    later a b k = ground (arith, k)

-- A test that was passed.
passed :
    (b : Bool) (x : Option Text) (r : Text)
    → (if b then none else x) ≡ some r
    → (b ≡ false) × (x ≡ some r)
passed true x r h = cc h
passed false x r h = (refl, h)

passes_guard : (b : Bool) → not b ≡ false → b ≡ true
passes_guard b h = ground (arith, h)

address_found :
    (host : Text) (o : Option Text) (r : Text)
    → address_in host o ≡ some r
    → (name : Text) × (o ≡ some name) × (address host name ≡ r)
address_found host none r h = cc h
address_found host (some name) r h = (name, refl, some-injective _ _ h)

address_trimmed :
    (host name : Text) → is_path name ≡ true → trim (address host name) ≡ address host name
unfolding trim trim_start is_space
address_trimmed host name h =
    subst (λ t. trim_end (codes "https://" ++ t) ≡ codes "https://" ++ t)
      (append_assoc host (47 ∷ []) name)
      (trim_end-append (codes "https://" ++ (host ++ 47 ∷ [])) name (path-IsSolid name h)
        (path_filled name h))

module _ (parse : Text → Option Url) (lower : Text → Text) where
  -- The parser takes an address apart that was put together of a host that it gave for an address by
  -- HTTPS, or of "gitlab.com", and of a path; lower case stays what it is.
  pub record ReadsBack : Type 0 where
    pub again :
        (v : Text) (url : Url) (name : Text)
        → parse v ≡ some url
        → text_eq url.protocol (codes "https:") ≡ true
        → is_empty (lower url.hostname) ≡ false
        → is_path name ≡ true
        → parse (address (lower url.hostname) name) ≡ some (plain_url (lower url.hostname) name)
    pub known :
        (name : Text)
        → is_path name ≡ true
        → parse (address (codes "gitlab.com") name) ≡ some (plain_url (codes "gitlab.com") name)
    pub low : (t : Text) → lower (lower t) ≡ lower t
    pub low_known : lower (codes "gitlab.com") ≡ codes "gitlab.com"

  of_plain :
      (host name : Text)
      → lower host ≡ host
      → is_empty host ≡ false
      → gitlab_path (47 ∷ name) ≡ some name
      → of_url parse lower (some (plain_url host name)) ≡ some (address host name)
  unfolding text_eq
  of_plain host name l filled p = rw (l, filled, p) refl

  -- An address that is in the form already.
  normalized :
      (host name : Text)
      → lower host ≡ host
      → is_empty host ≡ false
      → is_path name ≡ true
      → gitlab_path (47 ∷ name) ≡ some name
      → parse (address host name) ≡ some (plain_url host name)
      → normalize_gitlab_url parse lower (address host name) ≡ some (address host name)
  unfolding normalize_gitlab_url index_of starts_with
  normalized host name l filled good p read =
      rw (address_trimmed host name good)
        (ap (of_url parse lower) read ∙ of_plain host name l filled p)

  is_path_of : (raw name : Text) → gitlab_path raw ≡ some name → is_path name ≡ true
  unfolding gitlab_path
  is_path_of raw name h =
      let (same, good) = checked-some (strip_slashes (strip_git raw)) name h in
      subst (λ t. is_path t ≡ true) same good

  -- What an accepted address is made of.
  abbrev IsMade : Text → Type 0
  IsMade r =
      (host : Text) × (name : Text) × (raw : Text) × (address host name ≡ r)
      × (gitlab_path raw ≡ some name)
      × (lower host ≡ host)
      × (is_empty host ≡ false)
      × (parse (address host name) ≡ some (plain_url host name))

  of_url-IsMade :
      (v : Text) (o : Option Url) (r : Text)
      → ReadsBack
      → parse v ≡ o
      → of_url parse lower o ≡ some r
      → IsMade r
  of_url-IsMade v none r b e h = cc h
  of_url-IsMade v (some url) r b e h =
      let (secure, h1) = passed (not (text_eq url.protocol (codes "https:"))) _ r h in
      let (_, h2) = passed (has_extras url) _ r h1 in
      let (filled, h3) = passed (is_empty (lower url.hostname)) _ r h2 in
      let (name, found, made) =
        address_found (lower url.hostname) (gitlab_path url.pathname) r h3 in
      (
        lower url.hostname,
        name,
        url.pathname,
        made,
        found,
        b.low url.hostname,
        filled,
        b.again v url name e (passes_guard _ secure) filled (is_path_of url.pathname name found),
      )

  normalize-IsMade :
      (raw r : Text) → ReadsBack → normalize_gitlab_url parse lower raw ≡ some r → IsMade r
  unfolding normalize_gitlab_url
  normalize-IsMade raw r b h =
      let (_, h1) = passed (is_empty (trim raw)) _ r h in
      elim (Bool-cases (not (includes_scheme (trim raw)))) [
        | inl short ↦
            let h2 =
              subst
                (λ t.
                  (if t
                    then (if any is_space (trim raw)
                        then none
                        else address_in (codes "gitlab.com") (gitlab_path (trim raw)))
                    else of_url parse lower (parse (trim raw)))
                  ≡ some r)
                short h1 in
            let (_, h3) = passed (any is_space (trim raw)) _ r h2 in
            let (name, found, made) =
              address_found (codes "gitlab.com") (gitlab_path (trim raw)) r h3 in
            (
              codes "gitlab.com",
              name,
              trim raw,
              made,
              found,
              b.low_known,
              refl,
              b.known name (is_path_of (trim raw) name found),
            )
        | inr long ↦ of_url-IsMade (trim raw) (parse (trim raw)) r b refl (
            subst
              (λ t.
                (if t
                  then (if any is_space (trim raw)
                      then none
                      else address_in (codes "gitlab.com") (gitlab_path (trim raw)))
                  else of_url parse lower (parse (trim raw)))
                ≡ some r)
              long h1)
      ]

  -- The address that is made of what was typed is left as it is when it is typed again, so that one
  -- project has one address, unless it ends in ".git" still; the parser takes such addresses apart.
  pub normalize-normalize :
      (raw r : Text)
      → ReadsBack
      → normalize_gitlab_url parse lower raw ≡ some r
      → ends_git r ≡ false
      → normalize_gitlab_url parse lower r ≡ some r
  normalize-normalize raw r b h clear =
      let (host, name, from, made, found, l, filled, read) = normalize-IsMade raw r b h in
      let own : ends_git name ≡ false = ends_git_of (host ++ 47 ∷ []) name (
        subst (λ t. ends_git t ≡ false) (sym (append_assoc host (47 ∷ []) name))
          (ends_git_of (codes "https://") (host ++ 47 ∷ name)
            (subst (λ t. ends_git t ≡ false) (sym made) clear))) in
      subst (λ t. normalize_gitlab_url parse lower t ≡ some t) made
        (normalized host name l filled (is_path_of from name found)
          (gitlab_path_again from name found own) read)

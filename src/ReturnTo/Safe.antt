-- ===== src/ReturnTo/Safe.antt =====
-- The way back stays on the console's own site.
use accp.Prelude.{
  ◌≡◌, refl, Bool, true, false, not, ◌||◌, [], ◌∷◌, ◌++◌, Option, none, some, ◌==◌, any, arith,
  Bool-cases, inl, inr,
}
use accp.Text.{Text, codes, text_eq, is_empty, starts_with}
use accp.ReturnTo.{Url, sanitize_url, sanitize_return_to}

-- A path on the same site: it begins with one "/", and not with two, which would name another host.
abbrev pub IsSafe : Text → Type 0
IsSafe t = (starts_with (codes "/") t ≡ true) × (starts_with (codes "//") t ≡ false)

-- As the parser gives it: the path begins with "/", the query and the fragment do not.
pub record IsWellFormed (url : Url) : Type 0 where
  pub path : starts_with (codes "/") url.pathname ≡ true
  pub query : starts_with (codes "/") url.search ≡ false
  pub fragment : starts_with (codes "/") url.hash ≡ false

joined-IsSafe :
    (p s h : Text)
    → starts_with (codes "/") p ≡ true
    → starts_with (codes "//") p ≡ false
    → starts_with (codes "/") s ≡ false
    → starts_with (codes "/") h ≡ false
    → IsSafe (p ++ (s ++ h))
unfolding starts_with
joined-IsSafe [] s h a b c d = cc a
joined-IsSafe (x ∷ []) [] [] a b c d = (a, b)
joined-IsSafe (x ∷ []) [] (z ∷ h) a b c d = (a, ground (arith, d))
joined-IsSafe (x ∷ []) (y ∷ s) h a b c d = (a, ground (arith, c))
joined-IsSafe (x ∷ y ∷ p) s h a b c d = (a, b)

root-IsSafe : IsSafe (codes "/")
unfolding starts_with
root-IsSafe = (refl, refl)

sanitize_url-IsSafe :
    (origin : Text) (url : Url) → IsWellFormed url → IsSafe (sanitize_url origin (some url))
sanitize_url-IsSafe origin url w = elim (Bool-cases (text_eq url.origin origin)) [
  | inr e ↦ rw e root-IsSafe
  | inl e ↦ rw e (elim (Bool-cases (starts_with (codes "//") url.pathname)) [
    | inl f ↦ rw f root-IsSafe
    | inr f ↦
        rw f
          (elim (Bool-cases (
            text_eq url.pathname (codes "/auth/callback")
            || text_eq url.pathname (codes "/dev-login"))) [
              | inl g ↦ rw g root-IsSafe
              | inr g ↦
                  rw g (joined-IsSafe url.pathname url.search url.hash w.path f w.query w.fragment)
            ])
  ])
]

of_parsed :
    (origin : Text) (o : Option Url)
    → ((url : Url) → o ≡ some url → IsWellFormed url)
    → IsSafe (sanitize_url origin o)
of_parsed origin none w = root-IsSafe
of_parsed origin (some url) w = sanitize_url-IsSafe origin url (w url refl)

-- For a text with one "/" at its start, the parser gives a path that begins with "/", and a query and
-- a fragment that do not.
abbrev pub IsResolver : (parse : Text → Option Url) → Type 0
IsResolver parse =
    (t : Text) (url : Url)
    → starts_with (codes "/") t ≡ true
    → starts_with (codes "//") t ≡ false
    → parse t ≡ some url
    → IsWellFormed url

-- What the guard lets through.
let_through : (a b c : Bool) → (not a || b || c) ≡ false → (a ≡ true) × (b ≡ false)
let_through a b c h = ground (arith, h)

-- Whatever it is asked to go back to, the console goes to a path on its own site, if the parser gives
-- for a text with one "/" at its start a path that begins with "/", and a query and a fragment that
-- do not.
pub sanitize_return_to-IsSafe :
    (parse : Text → Option Url) (origin : Text) (value : Option Text)
    → IsResolver parse
    → IsSafe (sanitize_return_to parse origin value)
unfolding sanitize_return_to
sanitize_return_to-IsSafe parse origin none w = root-IsSafe
sanitize_return_to-IsSafe parse origin (some value) w = elim (Bool-cases (is_empty value)) [
  | inl e ↦ rw e root-IsSafe
  | inr e ↦
      rw e
        (elim (Bool-cases (
          not (starts_with (codes "/") value)
          || starts_with (codes "//") value
          || any (λ c. c == 92) value)) [
            | inl f ↦ rw f root-IsSafe
            | inr f ↦
                let (one, two) = let_through _ _ _ f in
                rw f (of_parsed origin (parse value) (λ url e. w value url one two e))
          ])
]

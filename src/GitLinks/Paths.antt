-- ===== src/GitLinks/Paths.antt =====
-- web/src/gitProviders.ts: the path of a project, taken twice.
use accp.Prelude.{
  ℕ, zero, ◌≡◌, refl, ap, subst, ◌∙◌, inl, inr, Bool, true, false, not, ◌&&◌, ◌||◌, List, [], ◌∷◌,
  ◌++◌, none, some, ◌==◌, leb, if◌then◌else◌, arith, Bool-cases, if_cases, length, All,
}
use mathlib.Core.Option.{some-injective}
use accp.Text.{Text, text_eq, is_empty, trim_end, is_space, split, cons_part}
use accp.GitLinks.{
  is_git, strip_git, slashes_start, slashes_end, strip_slashes, is_alnum, in_segment, every,
  gitlab_segment, is_dots, is_path, checked, gitlab_path,
}

StartsClear : Text → Type 0
StartsClear [] = zero ≡ zero
StartsClear (c ∷ s) = (c == 47) ≡ false

slashes_start-StartsClear : (s : Text) → StartsClear (slashes_start s)
unfolding slashes_start StartsClear
slashes_start-StartsClear [] = refl
slashes_start-StartsClear (c ∷ s) =
    if_cases StartsClear (c == 47) (λ _. slashes_start-StartsClear s) (λ e. e)

slashes_end-StartsClear : (s : Text) → StartsClear s → StartsClear (slashes_end s)
unfolding slashes_end StartsClear
slashes_end-StartsClear [] h = h
slashes_end-StartsClear (c ∷ s) h = by_rest (slashes_end s)
  where
    by_rest :
        (t : Text)
        → StartsClear (elim t [ [] ↦ if c == 47 then [] else c ∷ [] | d ∷ u ↦ c ∷ d ∷ u ])
    by_rest [] = if_cases StartsClear (c == 47) (λ _. refl) (λ e. e)
    by_rest (d ∷ u) = h

slashes_start_of_StartsClear : (s : Text) → StartsClear s → slashes_start s ≡ s
unfolding slashes_start StartsClear
slashes_start_of_StartsClear [] h = refl
slashes_start_of_StartsClear (c ∷ s) h = rw h refl

slashes_end-slashes_end : (s : Text) → slashes_end (slashes_end s) ≡ slashes_end s
unfolding slashes_end
slashes_end-slashes_end [] = refl
slashes_end-slashes_end (c ∷ s) = ground (arith, slashes_end-slashes_end s)

-- A slash before a text that was stripped goes, and nothing else.
strip-slash : (s : Text) → strip_slashes (47 ∷ strip_slashes s) ≡ strip_slashes s
unfolding strip_slashes slashes_start
strip-slash s =
    ap slashes_end
      (slashes_start_of_StartsClear _ (slashes_end-StartsClear _ (slashes_start-StartsClear s)))
    ∙ slashes_end-slashes_end (slashes_start s)

-- `/\.git$/i` matches.
abbrev pub ends_git : Text → Bool
ends_git [] = false
ends_git (c ∷ s) = is_git (c ∷ s) || ends_git s

or_false : (a b : Bool) → (a || b) ≡ false → (a ≡ false) × (b ≡ false)
or_false a b h = ground (arith, h)

strip_git_self : (s : Text) → ends_git s ≡ false → strip_git s ≡ s
unfolding strip_git
strip_git_self [] h = refl
strip_git_self (c ∷ s) h =
    let (here, rest) = or_false (is_git (c ∷ s)) (ends_git s) h in
    rw here (ap (λ t. c ∷ t) (strip_git_self s rest))

pub checked-some : (s name : Text) → checked s ≡ some name → (s ≡ name) × (is_path s ≡ true)
checked-some s name h = by (is_path s) refl h
  where
    by :
        (b : Bool)
        → is_path s ≡ b
        → (if b then some s else none) ≡ some name
        → (s ≡ name) × (is_path s ≡ true)
    by true e k = (some-injective _ _ k, e)
    by false e k = cc k

-- The path of a project is taken as it is behind a slash, unless it ends in ".git" once more.
pub gitlab_path_again :
    (raw name : Text)
    → gitlab_path raw ≡ some name
    → ends_git name ≡ false
    → gitlab_path (47 ∷ name) ≡ some name
unfolding gitlab_path text_eq
gitlab_path_again raw name h clear =
    let (same, good) = checked-some (strip_slashes (strip_git raw)) name h in
    ap (λ s. checked (strip_slashes s)) (strip_git_self (47 ∷ name) clear)
    ∙ ap checked (subst (λ t. strip_slashes (47 ∷ t) ≡ t) same (strip-slash (strip_git raw)))
    ∙ subst (λ t. checked t ≡ some name) same h

pub IsSolid : Text → Type 0
IsSolid = All (λ c. is_space c ≡ false)

and_true : (a b : Bool) → (a && b) ≡ true → (a ≡ true) × (b ≡ true)
and_true a b h = ground (arith, h)

in_segment_solid : (c : ℕ) → in_segment c ≡ true → is_space c ≡ false
unfolding is_space
in_segment_solid c h = ground (arith, h)

slash_solid : (c : ℕ) → (c == 47) ≡ true → is_space c ≡ false
unfolding is_space
slash_solid c h = ground (arith, h)

alnum_in_segment : (c : ℕ) → is_alnum c ≡ true → in_segment c ≡ true
alnum_in_segment c h = rw h refl

every_of_segment : (s : Text) → gitlab_segment s ≡ true → every in_segment s ≡ true
every_of_segment [] h = refl
every_of_segment (c ∷ s) h =
    let (a, rest) = and_true (is_alnum c) (every in_segment s) h in
    rw (alnum_in_segment c a, rest) refl

and_moved : (a b d : Bool) → ((a && b) && d) ≡ true → (a ≡ true) × ((b && d) ≡ true)
and_moved a b d h = ground (arith, h)

every-cons_part :
    (c : ℕ) (ps : List Text)
    → every (every in_segment) (cons_part c ps) ≡ true
    → (in_segment c ≡ true) × (every (every in_segment) ps ≡ true)
unfolding cons_part
every-cons_part c [] h = ((and_moved (in_segment c) true true h).0, refl)
every-cons_part c (p ∷ ps) h =
    and_moved (in_segment c) (every in_segment p) (every (every in_segment) ps) h

-- The parts of a text that may stand in a path hold no white space, and the slash is none.
parts-IsSolid : (s : Text) → every (every in_segment) (split 47 s) ≡ true → IsSolid s
unfolding split IsSolid
parts-IsSolid [] h = tt
parts-IsSolid (c ∷ s) h = elim (Bool-cases (c == 47)) [
  | inl e ↦ (
    slash_solid c e,
    parts-IsSolid s (
        subst
          (λ b.
            every (every in_segment) (if b then [] ∷ split 47 s else cons_part c (split 47 s))
            ≡ true)
          e h),
  )
  | inr e ↦
      let (here, rest) = every-cons_part c (split 47 s) (
        subst
          (λ b.
            every (every in_segment) (if b then [] ∷ split 47 s else cons_part c (split 47 s))
            ≡ true)
          e h) in
      (in_segment_solid c here, parts-IsSolid s rest)
]

every_weaker :
    (ps : List Text)
    → every (λ s. not (is_dots s) && gitlab_segment s) ps ≡ true
    → every (every in_segment) ps ≡ true
every_weaker [] h = refl
every_weaker (p ∷ ps) h =
    let (here, rest) = and_true (not (is_dots p) && gitlab_segment p) _ h in
    let (_, segment) = and_true (not (is_dots p)) (gitlab_segment p) here in
    rw (every_of_segment p segment, every_weaker ps rest) refl

-- What the tests of a path say of its text.
pub path-IsSolid : (name : Text) → is_path name ≡ true → IsSolid name
path-IsSolid name h = parts-IsSolid name (
    every_weaker (split 47 name)
      (and_true (not (is_empty name) && leb (length name) 512 && leb 2 (length (split 47 name))) _
        h).1)

pub path_filled : (name : Text) → is_path name ≡ true → is_empty name ≡ false
path_filled [] h = cc h
path_filled (c ∷ s) h = refl

filled-append : (p s : Text) → is_empty s ≡ false → is_empty (p ++ s) ≡ false
filled-append [] s e = e
filled-append (a ∷ p) s e = refl

-- White space goes at the ends only.
pub trim_end-append : (p s : Text) → IsSolid s → is_empty s ≡ false → trim_end (p ++ s) ≡ p ++ s
unfolding trim_end IsSolid
trim_end-append [] [] h e = refl
trim_end-append [] (c ∷ []) (h, hs) e = rw h refl
trim_end-append [] (c ∷ d ∷ s) (h, hs) e = rw (trim_end-append [] (d ∷ s) hs refl) refl
trim_end-append (a ∷ p) s h e = kept (p ++ s) (filled-append p s e) (trim_end-append p s h e)
  where
    kept :
        (t : Text)
        → is_empty t ≡ false
        → trim_end t ≡ t
        → elim (trim_end t) [ [] ↦ if is_space a then [] else a ∷ [] | d ∷ u ↦ a ∷ d ∷ u ] ≡ a ∷ t
    kept [] f k = cc f
    kept (d ∷ u) f k =
        ap (λ v. elim v [ [] ↦ if is_space a then [] else a ∷ [] | d' ∷ u' ↦ a ∷ d' ∷ u' ]) k

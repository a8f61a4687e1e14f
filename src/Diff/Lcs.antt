-- ===== src/Diff/Lcs.antt =====
-- What web/src/diff.ts computes, described without its table: subsequences, the length of the
-- longest common one, and what a diff of two lists of lines is.
use accp.Prelude.{
  ℕ, ◌+◌, ◌≤◌, max, ◌≡◌, refl, ap, ◌≢◌, inl, inr, true, List, [], ◌∷◌, arith, if◌then◌else◌, length,
  Bool-cases,
}
use accp.Text.{Text, text_eq, text_eq_iff}
use accp.Diff.{DiffLine, line, Kind, same, add, remove}

-- `Subsequence zs xs`: `zs` is `xs` with some lines left out.
pub data Subsequence : List Text → List Text → Type 0 where
  stop : Subsequence [] []
  keep : {z : Text} {zs xs : List Text} → Subsequence zs xs → Subsequence (z ∷ zs) (z ∷ xs)
  skip : {x : Text} {zs xs : List Text} → Subsequence zs xs → Subsequence zs (x ∷ xs)

Subsequence-tail : {z : Text} {zs xs : List Text} → Subsequence (z ∷ zs) xs → Subsequence zs xs
Subsequence-tail (keep s) = skip s
Subsequence-tail (skip s) = skip (Subsequence-tail s)

Subsequence-nil : {zs : List Text} → Subsequence zs [] → zs ≡ []
Subsequence-nil stop = refl

pub lcs_len : List Text → List Text → ℕ
lcs_len [] ys = 0
lcs_len (x ∷ xs) [] = 0
lcs_len (x ∷ xs) (y ∷ ys) =
    let both = 1 + lcs_len xs ys in
    let left = lcs_len xs (y ∷ ys) in
    let right = lcs_len (x ∷ xs) ys in if text_eq x y then both else max left right

pub lcs_len-nil : (xs : List Text) → lcs_len xs [] ≡ 0
unfolding lcs_len
lcs_len-nil [] = refl
lcs_len-nil (x ∷ xs) = refl

pub lcs_len-nil_left : (ys : List Text) → lcs_len [] ys ≡ 0
unfolding lcs_len
lcs_len-nil_left ys = refl

pub lcs_len-cons :
    (x y : Text) (xs ys : List Text)
    → lcs_len (x ∷ xs) (y ∷ ys)
      ≡ (if text_eq x y then 1 + lcs_len xs ys else max (lcs_len xs (y ∷ ys)) (lcs_len (x ∷ xs) ys))
unfolding lcs_len
lcs_len-cons x y xs ys = ground arith

pub lcs_len-le : (xs ys : List Text) → (lcs_len xs ys ≤ length xs) × (lcs_len xs ys ≤ length ys)
unfolding lcs_len
lcs_len-le [] ys = (omega arith, omega arith)
lcs_len-le (x ∷ xs) [] = (omega arith, omega arith)
lcs_len-le (x ∷ xs) (y ∷ ys) =
    ground (arith, lcs_len-le xs ys, lcs_len-le xs (y ∷ ys), lcs_len-le (x ∷ xs) ys)

-- Two lists with equal heads: dropping the heads costs at most one line.
module _ (x : Text) (xs ys : List Text)
    (best : (zs : List Text)
      → Subsequence zs xs
      → Subsequence zs ys
      → length zs ≤ lcs_len xs ys) where
  length-le-suc :
      {y : Text} {zs : List Text}
      → Subsequence zs (x ∷ xs)
      → Subsequence zs (y ∷ ys)
      → length zs ≤ 1 + lcs_len xs ys
  length-le-suc (keep {zs} s) (keep t) = omega (arith, best zs s t)
  length-le-suc (keep {z} {zs} s) (skip t) = omega (arith, best zs s (Subsequence-tail t))
  length-le-suc (skip s) (keep {zs} t) = omega (arith, best zs (Subsequence-tail s) t)
  length-le-suc {zs} (skip s) (skip t) = omega (arith, best zs s t)

-- Two lists with different heads: one of the heads is not used.
length-le-max :
    {x y : Text} {zs xs ys : List Text} (m n : ℕ)
    → x ≢ y
    → Subsequence zs (x ∷ xs)
    → Subsequence zs (y ∷ ys)
    → (Subsequence zs xs → length zs ≤ m)
    → (Subsequence zs ys → length zs ≤ n)
    → length zs ≤ max m n
length-le-max m n ne (keep s) (keep t) left right = absurd (ne refl)
length-le-max m n ne (keep s) (skip t) left right = omega (arith, right t)
length-le-max m n ne (skip s) t left right = omega (arith, left s)

-- No common subsequence is longer than `lcs_len`.
pub length-le-lcs_len :
    (xs ys zs : List Text) → Subsequence zs xs → Subsequence zs ys → length zs ≤ lcs_len xs ys
unfolding lcs_len
length-le-lcs_len [] ys zs s t = omega (arith, ap length (Subsequence-nil s))
length-le-lcs_len (x ∷ xs) [] zs s t = omega (arith, ap length (Subsequence-nil t))
length-le-lcs_len (x ∷ xs) (y ∷ ys) zs s t = elim (Bool-cases (text_eq x y)) [
  | inl e ↦ rw e (length-le-suc x xs ys (length-le-lcs_len xs ys) s t)
  | inr e ↦ rw e (
      length-le-max _ _ (λ p. ground (arith, text_eq_iff x y)) s t
        (λ u. length-le-lcs_len xs (y ∷ ys) zs u t) (λ u. length-le-lcs_len (x ∷ xs) ys zs s u))
]

-- The lines of a diff that the old text has, that the new text has, and that both have.
pub olds : List DiffLine → List Text
olds [] = []
olds (d ∷ ds) = elim d.kind [ same ↦ d.text ∷ olds ds | add ↦ olds ds | remove ↦ d.text ∷ olds ds ]

pub news : List DiffLine → List Text
news [] = []
news (d ∷ ds) = elim d.kind [ same ↦ d.text ∷ news ds | add ↦ d.text ∷ news ds | remove ↦ news ds ]

pub kept : List DiffLine → List Text
kept [] = []
kept (d ∷ ds) = elim d.kind [ same ↦ d.text ∷ kept ds | add ↦ kept ds | remove ↦ kept ds ]

-- A diff of `xs` against `ys`, that keeps as many lines as any could.
pub record IsDiff (xs ys : List Text) (ds : List DiffLine) : Type 0 where
  pub from : olds ds ≡ xs
  pub to : news ds ≡ ys
  pub longest : length (kept ds) ≡ lcs_len xs ys

kept-Subsequence-line :
    (k : Kind) (t : Text) (ds : List DiffLine)
    → Subsequence (kept ds) (olds ds) × Subsequence (kept ds) (news ds)
    → Subsequence (kept (line k t ∷ ds)) (olds (line k t ∷ ds))
      × Subsequence (kept (line k t ∷ ds)) (news (line k t ∷ ds))
unfolding kept olds news
kept-Subsequence-line same t ds (s, s') = (keep s, keep s')
kept-Subsequence-line add t ds (s, s') = (s, skip s')
kept-Subsequence-line remove t ds (s, s') = (skip s, s')

pub kept-Subsequence :
    (ds : List DiffLine) → Subsequence (kept ds) (olds ds) × Subsequence (kept ds) (news ds)
unfolding kept olds news
kept-Subsequence [] = (stop, stop)
kept-Subsequence (d ∷ ds) = kept-Subsequence-line d.kind d.text ds (kept-Subsequence ds)

pub IsDiff-nil : IsDiff [] [] []
unfolding kept olds news lcs_len
IsDiff-nil = record { from = refl; to = refl; longest = refl }

module _ {xs ys : List Text} {ds : List DiffLine} (d : IsDiff xs ys ds) where
  pub IsDiff-same : (x y : Text) → text_eq x y ≡ true → IsDiff (x ∷ xs) (y ∷ ys) (line same x ∷ ds)
  unfolding kept olds news
  IsDiff-same x y e = record {
    from = cc d.from;
    to = cc (d.to, (text_eq_iff x y).0 e);
    longest = rw (lcs_len-cons, e) (omega (arith, d.longest));
  }

  pub IsDiff-add :
      (y : Text) → lcs_len xs (y ∷ ys) ≡ lcs_len xs ys → IsDiff xs (y ∷ ys) (line add y ∷ ds)
  unfolding kept olds news
  IsDiff-add y e = record { from = d.from; to = cc d.to; longest = omega (arith, d.longest) }

  pub IsDiff-remove :
      (x : Text) → lcs_len (x ∷ xs) ys ≡ lcs_len xs ys → IsDiff (x ∷ xs) ys (line remove x ∷ ds)
  unfolding kept olds news
  IsDiff-remove x e = record { from = cc d.from; to = d.to; longest = omega (arith, d.longest) }

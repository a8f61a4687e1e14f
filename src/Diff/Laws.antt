-- ===== src/Diff/Laws.antt =====
-- What `lineDiff` promises: a complete and shortest line diff, whenever the table is small enough.
use mathlib.Core.Option.{some-injective}
use native.Mathlib.Decide.{dec_lt, dec_le}
use accp.Prelude.{
  ℕ, suc, ◌+◌, ◌*◌, ◌≤◌, ◌<◌, ◌≡◌, sym, subst, ◌≢◌, ◌∙◌, ◌↔◌, List, [], none, some, arith, add-one,
  length, replicate, drop, length-drop,
}
use accp.Text.{Text}
use accp.Diff.{DiffLine, lines, max_cells, line_diff, fill_rows, walk}
use accp.Diff.Lcs.{
  Subsequence, olds, news, kept, IsDiff, lcs_len, lcs_len-le, length-le-lcs_len, kept-Subsequence,
}
use accp.Diff.Table.{Filled, fill_rows-Filled, replicate-Filled}
use accp.Diff.Walk.{walk-Walked}

-- One side of a table of at most 200,000 cells is below 2^16, so no length wraps around.
mul_mono_left : (a b c : ℕ) → a ≤ b → a * c ≤ b * c
mul_mono_left a b c h = grind arith

small_side : (h w k : ℕ) → (h + 1) * (w + 1) ≤ 200000 → k ≤ h → k ≤ w → k < 65536
small_side h w k b p q = elim (dec_lt k 65536) [
  | yes lt ↦ lt
  | no ge ↦ absurd (omega (arith, mul_mono_left 65537 (h + 1) (w + 1) (omega arith)))
]

run-IsDiff :
    (xs ys : List Text)
    → (length xs + 1) * (length ys + 1) ≤ max_cells
    → (ds : List DiffLine) × (walk xs ys
          (length ys + 1)
          (fill_rows xs ys
            (length ys + 1)
            (length xs)
            (replicate ((length xs + 1) * (length ys + 1)) 0))
          (length xs + 1 + (length ys + 1))
          0
          0
          []
        ≡ some ds)
      × IsDiff xs ys ds
run-IsDiff xs ys fits =
    walk-Walked xs ys width wide small _
      (fill_rows-Filled xs ys width wide small (length xs) _ (omega arith) start)
      (length xs + 1 + (length ys + 1)) 0 0 [] (omega arith) (omega arith) (omega arith)
  where
    width : ℕ
    width = length ys + 1

    wide : width ≡ suc (length ys)
    wide = add-one (length ys)

    small : (i j : ℕ) → lcs_len (drop i xs) (drop j ys) < 65536
    small i j =
        small_side (length xs) (length ys) (lcs_len (drop i xs) (drop j ys)) fits
          (omega (arith, lcs_len-le (drop i xs) (drop j ys), length-drop i xs))
          (omega (arith, lcs_len-le (drop i xs) (drop j ys), length-drop j ys))

    start : Filled xs ys width wide small (length xs) 0 (replicate ((length xs + 1) * width) 0)
    start =
        subst (λ k. Filled xs ys width wide small (length xs) 0 (replicate (k * width) 0))
          (sym (add-one (length xs))) (replicate-Filled xs ys width wide small)

module _ (before after : Text) where
  abbrev pub Fits : Type 0
  Fits = (length (lines before) + 1) * (length (lines after) + 1) ≤ max_cells

  line_diff-IsDiff :
      Fits
      → (ds : List DiffLine) × (line_diff before after ≡ some ds)
        × IsDiff (lines before) (lines after) ds
  unfolding line_diff
  line_diff-IsDiff fits =
      let (ds, e, d) = run-IsDiff (lines before) (lines after) fits in (ds, ground arith, d)

  line_diff-none : ¬ Fits → line_diff before after ≡ none
  unfolding line_diff
  line_diff-none big = ground arith

  -- A diff is given exactly when the table has at most 200,000 cells.
  pub line_diff-ne-none_iff : (line_diff before after ≢ none) ↔ Fits
  line_diff-ne-none_iff = (
    λ ne. elim (dec_le ((length (lines before) + 1) * (length (lines after) + 1)) max_cells) [
      | yes fits ↦ fits
      | no big ↦ absurd (ne (line_diff-none big))
    ],
    λ fits e. let (ds, e', d) = line_diff-IsDiff fits in cc,
  )

  module _ {ds : List DiffLine} (given : line_diff before after ≡ some ds) where
    found : IsDiff (lines before) (lines after) ds
    found =
        let fits = line_diff-ne-none_iff.0 (λ e. cc) in
        let (ds', e, d) = line_diff-IsDiff fits in
        subst (IsDiff (lines before) (lines after)) (some-injective _ _ (sym e ∙ given)) d

    -- Without its added lines a diff is the old text, and without its removed lines the new one;
    -- the lines that it keeps are a common subsequence of both.
    pub line_diff_complete :
        (olds ds ≡ lines before)
        × (news ds ≡ lines after)
        × Subsequence (kept ds) (lines before)
        × Subsequence (kept ds) (lines after)
    line_diff_complete =
        let (s, t) = kept-Subsequence ds in
        (
          found.from,
          found.to,
          subst (Subsequence (kept ds)) found.from s,
          subst (Subsequence (kept ds)) found.to t,
        )

    -- No common subsequence of the two texts has more lines than a diff of them keeps.
    pub line_diff_longest :
        (zs : List Text)
        → Subsequence zs (lines before)
        → Subsequence zs (lines after)
        → length zs ≤ length (kept ds)
    line_diff_longest zs s t =
        omega (arith, found.longest, length-le-lcs_len (lines before) (lines after) zs s t)

-- ===== src/Diff/Table.antt =====
-- The filling loops of `lineDiff`: the table holds the lengths of the longest common subsequences.
use native.Mathlib.Decide.{ℕ_discrete, dec_lt}
use accp.Prelude.{
  ℕ, zero, suc, ◌+◌, ◌*◌, ◌≤◌, ◌<◌, max, ◌≡◌, refl, ap, ◌≢◌, ◌∙◌, sym, ◌⊎◌, inl, inr, List, [],
  arith, if◌then◌else◌, length, get_or, set, replicate, drop, length-set, length-replicate,
  get_or-replicate, get_or-set_self, get_or-set_ne, drop-eq-cons, drop-length,
}
use accp.Text.{Text, text_eq}
use accp.Diff.{fill_cell, fill_row, fill_rows, to_uint16}
use accp.Diff.Lcs.{lcs_len, lcs_len-nil, lcs_len-nil_left, lcs_len-cons}

index-lt : (i j h w : ℕ) → i ≤ h → j < w → i * w + j < suc h * w
index-lt i j h w p q = grind arith

row-le : (i o w : ℕ) → i < o → i * w + w ≤ o * w
row-le i o w h = grind arith

index-ne : (i j o n w : ℕ) → j < w → n < w → (i ≢ o) ⊎ (j ≢ n) → i * w + j ≢ o * w + n
index-ne i j o n w p q ne e = elim (dec_lt i o) [
  | yes h ↦ absurd (omega (arith, row-le i o w h))
  | no h ↦ elim (dec_lt o i) [
    | yes h' ↦ absurd (omega (arith, row-le o i w h'))
    | no h' ↦
        let same_row : i ≡ o = omega arith in
        let same_base : i * w ≡ o * w = ap (λ k. k * w) same_row in
        elim ne [ inl d ↦ absurd (d same_row) | inr d ↦ absurd (d (omega arith)) ]
  ]
]

to_uint16_of_lt : (n : ℕ) → n < 65536 → to_uint16 n ≡ n
unfolding to_uint16
to_uint16_of_lt n h = omega arith

module _ (old_lines new_lines : List Text) (width : ℕ) (wide : width ≡ suc (length new_lines))
    (small : (i j : ℕ) → lcs_len (drop i old_lines) (drop j new_lines) < 65536) where
  abbrev pub best : ℕ → ℕ → ℕ
  best i j = lcs_len (drop i old_lines) (drop j new_lines)

  pub best-step :
      (o n : ℕ)
      → o < length old_lines
      → n < length new_lines
      → best o n ≡ (
          if text_eq (get_or old_lines o []) (get_or new_lines n [])
          then 1 + best (suc o) (suc n)
          else max (best (suc o) n) (best o (suc n)))
  best-step o n p q =
      rw (drop-eq-cons old_lines o [] p, drop-eq-cons new_lines n [] q)
        (lcs_len-cons (get_or old_lines o []) (get_or new_lines n []) _ _)

  -- The cells that the loops have passed when they are at row `o` and column `n`.
  abbrev IsPassed : ℕ → ℕ → ℕ → ℕ → Type 0
  IsPassed o n i j = (o < i) ⊎ ((i ≡ o) × (n ≤ j)) ⊎ (length new_lines ≤ j)

  pub record Filled (o n : ℕ) (lcs : List ℕ) : Type 0 where
    pub size : length lcs ≡ suc (length old_lines) * width
    pub cells :
        (i j : ℕ)
        → i ≤ length old_lines
        → j ≤ length new_lines
        → IsPassed o n i j
        → get_or lcs (i * width + j) 0 ≡ best i j

  module _ (o n : ℕ) (lcs : List ℕ) (p : o < length old_lines) (q : n < length new_lines)
      (f : Filled o (suc n) lcs) where
    abbrev stored : ℕ
    stored = to_uint16 (
        if text_eq (get_or old_lines o []) (get_or new_lines n [])
        then 1 + get_or lcs (suc o * width + n + 1) 0
        else max (get_or lcs (suc o * width + n) 0) (get_or lcs (o * width + n + 1) 0))

    stored-eq-best : stored ≡ best o n
    stored-eq-best =
        rw (below_right, below, right, ← best-step o n p q) (to_uint16_of_lt _ (small o n))
      where
        shift : (k m : ℕ) → get_or lcs (k * width + m + 1) 0 ≡ get_or lcs (k * width + suc m) 0
        shift k m = ap (λ i. get_or lcs i 0) (omega arith)

        below_right : get_or lcs (suc o * width + n + 1) 0 ≡ best (suc o) (suc n)
        below_right = shift (suc o) n ∙ f.cells (suc o) (suc n) p q (inl (omega arith))

        below : get_or lcs (suc o * width + n) 0 ≡ best (suc o) n
        below = f.cells (suc o) n p (omega arith) (inl (omega arith))

        right : get_or lcs (o * width + n + 1) 0 ≡ best o (suc n)
        right = shift o n ∙ f.cells o (suc n) (omega arith) q (inr (inl (refl, omega arith)))

    here : get_or (set lcs (o * width + n) stored) (o * width + n) 0 ≡ best o n
    here =
        get_or-set_self lcs (o * width + n) stored 0
          (rw f.size (index-lt o n (length old_lines) width (omega arith) (omega arith)))
        ∙ stored-eq-best

    elsewhere :
        (i j : ℕ)
        → i ≤ length old_lines
        → j ≤ length new_lines
        → IsPassed o n i j
        → (i ≢ o) ⊎ (j ≢ n)
        → get_or (set lcs (o * width + n) stored) (i * width + j) 0 ≡ best i j
    elsewhere i j hi hj passed ne =
        get_or-set_ne lcs (o * width + n) (i * width + j) stored 0
          (index-ne i j o n width (omega arith) (omega arith) ne)
        ∙ f.cells i j hi hj (earlier passed ne)
      where
        earlier : IsPassed o n i j → (i ≢ o) ⊎ (j ≢ n) → IsPassed o (suc n) i j
        earlier a b = omega arith

    fill_cell-Filled : Filled o n (fill_cell old_lines new_lines width o n lcs)
    unfolding fill_cell
    fill_cell-Filled = record {
      size = length-set lcs _ _ ∙ f.size;
      cells = λ i j hi hj passed. elim (ℕ_discrete i o) [
        | no di ↦ elsewhere i j hi hj passed (inl di)
        | yes ei ↦ elim (ℕ_discrete j n) [
          | no dj ↦ elsewhere i j hi hj passed (inr dj)
          | yes ej ↦ rw (ei, ej) here
        ]
      ];
    }

  fill_row-Filled :
      (o n : ℕ) (lcs : List ℕ)
      → o < length old_lines
      → n ≤ length new_lines
      → Filled o n lcs
      → Filled o 0 (fill_row old_lines new_lines width o n lcs)
  unfolding fill_row
  fill_row-Filled o zero lcs p q f = f
  fill_row-Filled o (suc n) lcs p q f =
      fill_row-Filled o n _ p (omega arith) (fill_cell-Filled o n lcs p q f)

  -- A finished row is the start of the row above it.
  Filled-next_row : (o : ℕ) (lcs : List ℕ) → Filled (suc o) 0 lcs → Filled o (length new_lines) lcs
  Filled-next_row o lcs f = record {
    size = f.size;
    cells = λ i j hi hj passed. f.cells i j hi hj (omega arith);
  }

  pub fill_rows-Filled :
      (o : ℕ) (lcs : List ℕ)
      → o ≤ length old_lines
      → Filled o 0 lcs
      → Filled 0 0 (fill_rows old_lines new_lines width o lcs)
  unfolding fill_rows
  fill_rows-Filled zero lcs p f = f
  fill_rows-Filled (suc o) lcs p f =
      fill_rows-Filled o _ (omega arith)
        (fill_row-Filled o (length new_lines) lcs p (omega arith) (Filled-next_row o lcs f))

  -- The empty table is right below the last row and right of the last column.
  pub replicate-Filled : Filled (length old_lines) 0 (replicate (suc (length old_lines) * width) 0)
  replicate-Filled = record {
    size = length-replicate _ 0;
    cells = λ i j hi hj passed. get_or-replicate _ (i * width + j) 0 ∙ sym (edge i j hi hj passed);
  }
    where
      edge :
          (i j : ℕ)
          → i ≤ length old_lines
          → j ≤ length new_lines
          → IsPassed (length old_lines) 0 i j
          → best i j ≡ 0
      edge i j hi hj (inl h) = absurd (omega arith)
      edge i j hi hj (inr (inl (e, h))) = rw (e, drop-length) (lcs_len-nil_left _)
      edge i j hi hj (inr (inr h)) =
          let e : j ≡ length new_lines = omega arith in rw (e, drop-length) (lcs_len-nil _)

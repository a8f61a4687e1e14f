-- ===== src/Diff/Walk.antt =====
-- The walk through the table of `lineDiff`.
use native.Mathlib.Decide.{dec_lt, dec_le}
use accp.Prelude.{
  ℕ, zero, suc, ◌+◌, ◌*◌, ◌-◌, ◌≤◌, ◌<◌, max, ◌≡◌, ap, sym, ◌∙◌, inl, inr, true, false, List, [],
  ◌∷◌, ◌++◌, Option, some, arith, append_assoc, append-nil, length, get_or, drop, drop-eq-cons,
  drop-length, Bool-cases,
}
use accp.Text.{Text, text_eq}
use accp.Diff.{DiffLine, line, same, add, remove, walk}
use accp.Diff.Lcs.{
  lcs_len, lcs_len-nil, lcs_len-nil_left, IsDiff, IsDiff-nil, IsDiff-same, IsDiff-add,
  IsDiff-remove,
}
use accp.Diff.Table.{best, best-step, Filled}

module _ (old_lines new_lines : List Text) (width : ℕ) (wide : width ≡ suc (length new_lines))
    (small : (i j : ℕ) → lcs_len (drop i old_lines) (drop j new_lines) < 65536) (lcs : List ℕ)
    (filled : Filled old_lines new_lines width wide small 0 0 lcs) where
  abbrev old_at : ℕ → Text
  old_at o = get_or old_lines o []

  abbrev new_at : ℕ → Text
  new_at n = get_or new_lines n []

  abbrev cell : ℕ → ℕ → ℕ
  cell o n = best old_lines new_lines width wide small o n

  abbrev go : ℕ → ℕ → ℕ → List DiffLine → Option (List DiffLine)
  go = walk old_lines new_lines width lcs

  cell-read :
      (i j : ℕ)
      → i ≤ length old_lines
      → j ≤ length new_lines
      → get_or lcs (i * width + j) 0 ≡ cell i j
  cell-read i j hi hj = filled.cells i j hi hj (omega arith)

  -- One step of the loop, for each of its four ways.
  module _ (fuel o n : ℕ) (acc : List DiffLine) where
    walk-done : length old_lines ≤ o → length new_lines ≤ n → go (suc fuel) o n acc ≡ some acc
    unfolding walk
    walk-done p q = ground arith

    walk-same :
        o < length old_lines
        → n < length new_lines
        → text_eq (old_at o) (new_at n) ≡ true
        → go (suc fuel) o n acc ≡ go fuel (suc o) (suc n) (acc ++ line same (old_at o) ∷ [])
    unfolding walk
    walk-same p q e = ground arith

    walk-add_end :
        o ≡ length old_lines
        → n < length new_lines
        → go (suc fuel) o n acc ≡ go fuel o (suc n) (acc ++ line add (new_at n) ∷ [])
    unfolding walk
    walk-add_end p q = ground arith

    walk-add :
        o < length old_lines
        → n < length new_lines
        → text_eq (old_at o) (new_at n) ≡ false
        → get_or lcs (suc o * width + n) 0 ≤ get_or lcs (o * width + n + 1) 0
        → go (suc fuel) o n acc ≡ go fuel o (suc n) (acc ++ line add (new_at n) ∷ [])
    unfolding walk
    walk-add p q e h = ground arith

    walk-remove_end :
        o < length old_lines
        → n ≡ length new_lines
        → go (suc fuel) o n acc ≡ go fuel (suc o) n (acc ++ line remove (old_at o) ∷ [])
    unfolding walk
    walk-remove_end p q = ground arith

    walk-remove :
        o < length old_lines
        → n < length new_lines
        → text_eq (old_at o) (new_at n) ≡ false
        → get_or lcs (o * width + n + 1) 0 < get_or lcs (suc o * width + n) 0
        → go (suc fuel) o n acc ≡ go fuel (suc o) n (acc ++ line remove (old_at o) ∷ [])
    unfolding walk
    walk-remove p q e h = ground arith

  abbrev Walked : ℕ → ℕ → ℕ → List DiffLine → Type 0
  Walked fuel o n acc =
      (ds : List DiffLine) × (go fuel o n acc ≡ some (acc ++ ds))
      × IsDiff (drop o old_lines) (drop n new_lines) ds

  -- A step that adds the line `d` and goes on elsewhere.
  Walked-step :
      (fuel o n o' n' : ℕ) (acc : List DiffLine) (d : DiffLine)
      → go (suc fuel) o n acc ≡ go fuel o' n' (acc ++ d ∷ [])
      → ((ds : List DiffLine)
          → IsDiff (drop o' old_lines) (drop n' new_lines) ds
          → IsDiff (drop o old_lines) (drop n new_lines) (d ∷ ds))
      → Walked fuel o' n' (acc ++ d ∷ [])
      → Walked (suc fuel) o n acc
  Walked-step fuel o n o' n' acc d step extend (ds, e, is_diff) =
      (d ∷ ds, step ∙ e ∙ ap some (append_assoc acc (d ∷ []) ds), extend ds is_diff)

  module _ (o n : ℕ) {ds : List DiffLine} where
    drop-same :
        o < length old_lines
        → n < length new_lines
        → text_eq (old_at o) (new_at n) ≡ true
        → IsDiff (drop (suc o) old_lines) (drop (suc n) new_lines) ds
        → IsDiff (drop o old_lines) (drop n new_lines) (line same (old_at o) ∷ ds)
    drop-same p q e d =
        rw (drop-eq-cons old_lines o [] p, drop-eq-cons new_lines n [] q)
          (IsDiff-same d (old_at o) (new_at n) e)

    drop-add :
        n < length new_lines
        → cell o n ≡ cell o (suc n)
        → IsDiff (drop o old_lines) (drop (suc n) new_lines) ds
        → IsDiff (drop o old_lines) (drop n new_lines) (line add (new_at n) ∷ ds)
    drop-add q e d =
        let shape = drop-eq-cons new_lines n [] q in
        rw shape (IsDiff-add d (new_at n) (rw shape at e))

    drop-remove :
        o < length old_lines
        → cell o n ≡ cell (suc o) n
        → IsDiff (drop (suc o) old_lines) (drop n new_lines) ds
        → IsDiff (drop o old_lines) (drop n new_lines) (line remove (old_at o) ∷ ds)
    drop-remove p e d =
        let shape = drop-eq-cons old_lines o [] p in
        rw shape (IsDiff-remove d (old_at o) (rw shape at e))

  cell-end_row : (o n : ℕ) → o ≡ length old_lines → cell o n ≡ 0
  cell-end_row o n e = rw (e, drop-length) (lcs_len-nil_left _)

  cell-end_column : (o n : ℕ) → n ≡ length new_lines → cell o n ≡ 0
  cell-end_column o n e = rw (e, drop-length) (lcs_len-nil _)

  -- Where the heads differ, the best of the cell is the better of its two neighbours.
  cell-ne :
      (o n : ℕ)
      → o < length old_lines
      → n < length new_lines
      → text_eq (old_at o) (new_at n) ≡ false
      → cell o n ≡ max (cell (suc o) n) (cell o (suc n))
  cell-ne o n p q e = best-step old_lines new_lines width wide small o n p q ∙ rw e

  read-right :
      (o n : ℕ)
      → o ≤ length old_lines
      → n < length new_lines
      → get_or lcs (o * width + n + 1) 0 ≡ cell o (suc n)
  read-right o n p q = ap (λ i. get_or lcs i 0) (omega arith) ∙ cell-read o (suc n) p q

  -- From any place in the table, with fuel for the lines that are left, the loop ends, and what it
  -- adds is a diff of those lines.
  pub walk-Walked :
      (fuel o n : ℕ) (acc : List DiffLine)
      → o ≤ length old_lines
      → n ≤ length new_lines
      → (length old_lines - o) + (length new_lines - n) < fuel
      → Walked fuel o n acc
  walk-Walked zero o n acc p q h = absurd (omega arith)
  walk-Walked (suc fuel) o n acc p q h = elim (dec_lt o (length old_lines)) [
    | no po ↦ elim (dec_lt n (length new_lines)) [
      | no qn ↦
          let eo : o ≡ length old_lines = omega arith in
          let en : n ≡ length new_lines = omega arith in
          (
            [],
            walk-done fuel o n acc (omega arith) (omega arith) ∙ ap some (sym (append-nil acc)),
            rw (eo, en, drop-length, drop-length) IsDiff-nil,
          )
      | yes qn ↦
          let e : o ≡ length old_lines = omega arith in
          Walked-step fuel o n _ _ acc (line add (new_at n)) (walk-add_end fuel o n acc e qn)
            (λ ds. drop-add o n qn (cell-end_row o n e ∙ sym (cell-end_row o (suc n) e)))
            (walk-Walked fuel o (suc n) _ p qn (omega arith))
    ]
    | yes po ↦ elim (dec_lt n (length new_lines)) [
      | no qn ↦
          let e : n ≡ length new_lines = omega arith in
          Walked-step fuel o n _ _ acc (line remove (old_at o)) (walk-remove_end fuel o n acc po e)
            (λ ds. drop-remove o n po (cell-end_column o n e ∙ sym (cell-end_column (suc o) n e)))
            (walk-Walked fuel (suc o) n _ po q (omega arith))
      | yes qn ↦ elim (Bool-cases (text_eq (old_at o) (new_at n))) [
        | inl e ↦
            Walked-step fuel o n _ _ acc (line same (old_at o)) (walk-same fuel o n acc po qn e)
              (λ ds. drop-same o n po qn e) (walk-Walked fuel (suc o) (suc n) _ po qn (omega arith))
        | inr e ↦
            elim (dec_le (get_or lcs (suc o * width + n) 0) (get_or lcs (o * width + n + 1) 0)) [
              | yes le ↦
                  Walked-step fuel o n _ _ acc (line add (new_at n))
                    (walk-add fuel o n acc po qn e le)
                    (λ ds. drop-add o n qn (
                      omega (
                        arith,
                        cell-ne o n po qn e,
                        cell-read (suc o) n po q,
                        read-right o n p qn,
                      )))
                    (walk-Walked fuel o (suc n) _ p qn (omega arith))
              | no gt ↦
                  Walked-step fuel o n _ _ acc (line remove (old_at o))
                    (walk-remove fuel o n acc po qn e (omega arith))
                    (λ ds. drop-remove o n po (
                      omega (
                        arith,
                        cell-ne o n po qn e,
                        cell-read (suc o) n po q,
                        read-right o n p qn,
                      )))
                    (walk-Walked fuel (suc o) n _ po q (omega arith))
            ]
      ]
    ]
  ]

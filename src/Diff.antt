-- ===== src/Diff.antt =====
-- web/src/diff.ts: `lineDiff`, a bounded line diff by a table of longest common subsequences.
pub mod Lcs
mod Table
mod Walk
pub mod Laws
mod Tests
use accp.Prelude.{
  ℕ, zero, suc, ◌+◌, ◌*◌, ◌%◌, ◌^◌, max, ◌≡◌, refl, Bool, true, false, ◌&&◌, ◌||◌, List, [], ◌∷◌,
  ◌++◌, Option, none, some, ◌==◌, ltb, leb, if◌then◌else◌, length, get_or, set, replicate,
}
use accp.Text.{Text, text_eq, is_empty, split}

pub data Kind : Type 0 where
  same add remove : Kind

pub record DiffLine : Type 0 where
  pub kind : Kind
  pub text : Text

abbrev pub line : Kind → Text → DiffLine
line k t = record { kind = k; text = t }

-- `before ? before.split("\n") : []`
pub lines : Text → List Text
lines s = if is_empty s then [] else split 10 s

abbrev pub max_cells : ℕ
max_cells = 200000

-- A store into a Uint16Array keeps the low sixteen bits.
pub to_uint16 : ℕ → ℕ
to_uint16 n = n % 2 ^ 16

module _ (old_lines new_lines : List Text) (width : ℕ) where
  -- one round of the inner filling loop
  pub fill_cell : (old next : ℕ) → List ℕ → List ℕ
  unfolding to_uint16
  fill_cell old next lcs =
      let index = old * width + next in
      set lcs index (
        to_uint16 (
          if text_eq (get_or old_lines old []) (get_or new_lines next [])
          then 1 + get_or lcs (suc old * width + next + 1) 0
          else max (get_or lcs (suc old * width + next) 0) (get_or lcs (index + 1) 0)))

  -- `for (next = n - 1; next >= 0; next--)`
  pub fill_row : (old n : ℕ) → List ℕ → List ℕ
  fill_row old zero lcs = lcs
  fill_row old (suc next) lcs = fill_row old next (fill_cell old next lcs)

  -- `for (old = n - 1; old >= 0; old--)`
  pub fill_rows : (n : ℕ) → List ℕ → List ℕ
  fill_rows zero lcs = lcs
  fill_rows (suc old) lcs = fill_rows old (fill_row old (length new_lines) lcs)

  -- The `while` loop that walks the table, on fuel; `none` means that the fuel ran out.
  pub walk : (lcs : List ℕ) (fuel old next : ℕ) → List DiffLine → Option (List DiffLine)
  walk lcs zero old next result = none
  walk lcs (suc fuel) old next result =
      let keep =
        walk lcs fuel (suc old) (suc next) (result ++ line same (get_or old_lines old []) ∷ []) in
      let insert =
        walk lcs fuel old (suc next) (result ++ line add (get_or new_lines next []) ∷ []) in
      let delete =
        walk lcs fuel (suc old) next (result ++ line remove (get_or old_lines old []) ∷ []) in
      if ltb old (length old_lines) || ltb next (length new_lines)
      then (if ltb old (length old_lines)
            && ltb next (length new_lines)
            && text_eq (get_or old_lines old []) (get_or new_lines next [])
          then keep
          else (if ltb next (length new_lines)
                && (old == length old_lines
                    || leb (get_or lcs (suc old * width + next) 0)
                        (get_or lcs (old * width + next + 1) 0))
              then insert
              else delete))
      else some result

-- `undefined`, when the table would be too large, is `none`.
pub line_diff : Text → Text → Option (List DiffLine)
unfolding lines fill_rows fill_row fill_cell walk
line_diff before after =
    let old_lines = lines before in
    let new_lines = lines after in
    let height = length old_lines + 1 in
    let width = length new_lines + 1 in
    if ltb max_cells (height * width)
    then none
    else walk old_lines new_lines width
        (fill_rows old_lines new_lines width (length old_lines) (replicate (height * width) 0))
        (height + width) 0 0 []

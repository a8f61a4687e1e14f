-- ===== src/Diff/Tests.antt =====
-- Runs of `lineDiff`, and the theorems at them.
use accp.Prelude.{◌≤◌, ◌≡◌, refl, List, [], ◌∷◌, some, length}
use accp.Text.{Text, text_eq, split, codes}
use accp.Diff.{DiffLine, line, same, add, remove, lines, line_diff}
use accp.Diff.Lcs.{Subsequence, stop, keep, skip, olds, news, kept}
use accp.Diff.Laws.{line_diff_complete, line_diff_longest}

abbrev old_text : Text
old_text = 97 ∷ 10 ∷ 98 ∷ 10 ∷ 99 ∷ []

abbrev new_text : Text
new_text = 98 ∷ 10 ∷ 100 ∷ 10 ∷ 99 ∷ []

abbrev the_diff : List DiffLine
the_diff =
    line remove (codes "a")
    ∷ line same (codes "b")
    ∷ line add (codes "d")
    ∷ line same (codes "c")
    ∷ []

line_diff_run : line_diff old_text new_text ≡ some the_diff
unfolding line_diff text_eq split
line_diff_run = refl

line_diff_complete_example :
    (olds the_diff ≡ lines old_text)
    × (news the_diff ≡ lines new_text)
    × Subsequence (kept the_diff) (lines old_text)
    × Subsequence (kept the_diff) (lines new_text)
line_diff_complete_example = line_diff_complete old_text new_text line_diff_run

line_diff_longest_example : length (codes "c" ∷ []) ≤ length (kept the_diff)
unfolding lines split
line_diff_longest_example =
    line_diff_longest old_text new_text line_diff_run (codes "c" ∷ []) (skip (skip (keep stop)))
      (skip (skip (keep stop)))

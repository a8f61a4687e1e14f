-- ===== src/GitLinks/Blockers/Tests.antt =====
-- web/src/archiveBlockers.ts at concrete messages.
use accp.Prelude.{some, ◌-◌, ◌≡◌, refl, [], ◌∷◌, length, arith}
use accp.Text.{codes, is_space, split, cons_part, trim, trim_start, trim_end, index_of, starts_with}
use accp.GitLinks.Blockers.{
  ArchiveBlocker, parse_archive_blockers, value_of, to_number, rounded, exponent, blockers_of,
  token_blocker, first_match, eat, digits,
}
use accp.GitLinks.Blockers.Printed.{full_detail, partial_detail}
use accp.GitLinks.Blockers.Detail.{parse_archive_blockers-detail}

abbrev the_run : ArchiveBlocker
the_run = record { kind = codes "run"; id = codes "7f" }

abbrev the_task : ArchiveBlocker
the_task = record { kind = codes "task"; id = codes "a:b" }

parse_archive_blockers-detail_example :
    (parse_archive_blockers (full_detail (the_run ∷ the_task ∷ [])) ≡ (the_run ∷ the_task ∷ [], 0))
    × (parse_archive_blockers (partial_detail (codes "2") (codes "31") (the_run ∷ the_task ∷ []))
        ≡ (the_run ∷ the_task ∷ [], value_of 0 (codes "31") - length (the_run ∷ the_task ∷ [])))
unfolding is_space
parse_archive_blockers-detail_example =
    parse_archive_blockers-detail (codes "2") (codes "31") the_run (the_task ∷ []) refl refl refl
      (omega arith) (omega arith)

-- Whatever the case and the spaces; without a colon the kind is unknown, and so it is where the kind
-- is empty.
loose_run : parse_archive_blockers (codes "No (SHOWING  2 Of 5): a, :b,, ") ≡ (
  (record { kind = codes "unknown"; id = codes "a" })
      ∷ (record { kind = codes "unknown"; id = codes ":b" })
      ∷ [],
  3,
)
unfolding parse_archive_blockers blockers_of token_blocker first_match eat digits split cons_part
    trim trim_start trim_end index_of starts_with is_space to_number
loose_run = refl

-- Another message blocks nothing.
other_run : parse_archive_blockers (codes "showing 2 of 5: run:1") ≡ ([], 0)
unfolding parse_archive_blockers blockers_of token_blocker first_match eat digits split cons_part
    trim trim_start trim_end index_of starts_with is_space to_number
other_run = refl

-- A number of more than 53 bits is rounded.
rounded_run : to_number 9007199254740993 ≡ some 9007199254740992
unfolding to_number rounded exponent
rounded_run = refl

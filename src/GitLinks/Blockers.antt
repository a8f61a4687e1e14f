-- ===== src/GitLinks/Blockers.antt =====
-- web/src/archiveBlockers.ts: what blocks an archive, read from the message of the server.
pub mod Printed
pub mod Detail
mod Tests
use accp.Prelude.{
  ℕ, zero, suc, ◌+◌, ◌-◌, ◌*◌, ◌≡◌, Bool, true, false, not, ◌&&◌, ◌||◌, List, [], ◌∷◌, ◌++◌, map,
  Option, none, some, ◌==◌, leb, ltb, ◌/◌, ◌%◌, ◌^◌, if◌then◌else◌, any, filter, take, drop, length,
}
use accp.Text.{Text, codes, is_empty, trim, trim_start, is_space, split, index_of}

pub record ArchiveBlocker : Type 0 where
  pub kind : Text
  pub id : Text

abbrev pub and_then : {A B : Type 0} → Option A → (A → Option B) → Option B
and_then none f = none
and_then (some a) f = f a

abbrev pub fold_unit : ℕ → ℕ
fold_unit c = if leb 65 c && leb c 90 then c + 32 else c

-- A word of a pattern, in small letters, with the `i` flag.
unfoldable pub eat : (word : Text) → Text → Option Text
eat [] s = some s
eat (a ∷ w) [] = none
eat (a ∷ w) (c ∷ s) = let rest = eat w s in if fold_unit c == a then rest else none

-- `\s+`
abbrev pub some_spaces : Text → Option Text
some_spaces [] = none
some_spaces (c ∷ s) = if is_space c then some (trim_start s) else none

abbrev pub is_digit : ℕ → Bool
is_digit c = leb 48 c && leb c 57

abbrev pub with_digit : ℕ → Text × Text → Text × Text
with_digit c (digits, rest) = (c ∷ digits, rest)

-- `\d*`
unfoldable pub digits : Text → Text × Text
digits [] = ([], [])
digits (c ∷ s) = let rest = digits s in if is_digit c then with_digit c rest else ([], c ∷ s)

-- `\d+`
abbrev pub some_digits : Text × Text → Option (Text × Text)
some_digits ([], s) = none
some_digits (c ∷ ds, s) = some (c ∷ ds, s)

-- What "." does not match.
abbrev pub is_line_end : ℕ → Bool
is_line_end c = c == 10 || c == 13 || c == 0x2028 || c == 0x2029

-- `\s*(.*)$`
abbrev pub rest_of_line : Text → Option Text
rest_of_line s = if any is_line_end (trim_start s) then none else some (trim_start s)

-- `/\(showing\s+(\d+)\s+of\s+(\d+)\):\s*(.*)$/i` from here on: the second number and the list
abbrev pub showing_at : Text → Option (Text × Text)
showing_at s = and_then (eat (codes "(showing") s) (λ s1. and_then (some_spaces s1) (λ s2.
    and_then (some_digits (digits s2)) (λ n. and_then (some_spaces n.1) (λ s3.
      and_then (eat (codes "of") s3) (λ s4. and_then (some_spaces s4) (λ s5.
        and_then (some_digits (digits s5)) (λ m.
          and_then (eat (codes "):") m.1)
            (λ s6. and_then (rest_of_line s6) (λ list. some (m.0, list))))))))))

-- `/\(up to 20\):\s*(.*)$/i` from here on
abbrev pub legacy_at : Text → Option Text
legacy_at s = and_then (eat (codes "(up to 20):") s) rest_of_line

abbrev pub or_else : {A : Type 0} → Option A → Option A → Option A
or_else none o = o
or_else (some a) o = some a

-- `match`: the first place where the pattern fits
unfoldable pub first_match : {A : Type 0} → (Text → Option A) → Text → Option A
first_match at [] = at []
first_match at (c ∷ s) = or_else (at (c ∷ s)) (first_match at s)

-- The value of digits.
abbrev pub value_of : (so_far : ℕ) → Text → ℕ
value_of n [] = n
value_of n (c ∷ s) = value_of (10 * n + (c - 48)) s

-- The power of 2 that is taken off a number, so that 53 bits are left. A number of which more are
-- left is far above 2^1024.
unfoldable pub exponent : (fuel n : ℕ) → ℕ
exponent zero n = 0
exponent (suc fuel) n = let e = exponent fuel (n / 2) in if ltb n (2 ^ 53) then 0 else suc e

-- `n` is rounded to a multiple of `d`, a half to an even one.
abbrev pub round_to : (d n : ℕ) → ℕ
round_to d n =
    if ltb (2 * (n % d)) d || 2 * (n % d) == d && n / d % 2 == 0 then n / d * d else suc (n / d) * d

abbrev pub finite : ℕ → Option ℕ
finite n = if ltb n (2 ^ 1024) then some n else none

unfoldable pub rounded : ℕ → Option ℕ
unfolding exponent
rounded n = finite (round_to (2 ^ exponent 1100 n) n)

-- What a whole number is as a `number`, with `none` for infinity.
unfoldable pub to_number : ℕ → Option ℕ
to_number n = if ltb n (2 ^ 53) then some n else rounded n

-- `Number` of digits
abbrev pub number_of : Text → Option ℕ
number_of s = to_number (value_of 0 s)

abbrev pub by_colon : (token : Text) → Option ℕ → ArchiveBlocker
by_colon token none = record { kind = codes "unknown"; id = token }
by_colon token (some zero) = record { kind = codes "unknown"; id = token }
by_colon token (some (suc i)) = record { kind = take (suc i) token; id = drop (suc (suc i)) token }

pub token_blocker : Text → ArchiveBlocker
token_blocker token = by_colon token (index_of (codes ":") token)

abbrev pub list_part : (showing : Option (Text × Text)) → (legacy : Option Text) → Text
list_part (some (_, list)) legacy = list
list_part none (some list) = list
list_part none none = []

pub blockers_of : (list_part : Text) → List ArchiveBlocker
unfolding token_blocker
blockers_of list =
    take 20 (map token_blocker (filter (λ part. not (is_empty part)) (map trim (split 44 list))))

abbrev pub rest_of : (total : Option ℕ) → (shown : ℕ) → ℕ
rest_of none shown = 0
rest_of (some total) shown = elim (to_number (total - shown)) [ none ↦ 0 | some n ↦ n ]

abbrev pub extra_of : (showing : Option (Text × Text)) → (shown : ℕ) → ℕ
extra_of none shown = 0
extra_of (some (total, _)) shown = rest_of (number_of total) shown

abbrev pub with_extra : Option (Text × Text) → List ArchiveBlocker → List ArchiveBlocker × ℕ
with_extra showing blockers = (blockers, extra_of showing (length blockers))

pub parse_archive_blockers : (detail : Text) → List ArchiveBlocker × ℕ
unfolding blockers_of
parse_archive_blockers detail =
    let showing = first_match showing_at detail in
    let legacy = first_match legacy_at detail in
    with_extra showing (blockers_of (list_part showing legacy))

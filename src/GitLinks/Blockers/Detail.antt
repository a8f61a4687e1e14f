-- ===== src/GitLinks/Blockers/Detail.antt =====
-- web/src/archiveBlockers.ts: the message of internal/controlplane/management.go, read back.
use accp.Prelude.{
  if◌then◌else◌, ◌∙◌, lt→ltb, ◌<◌, ◌^◌, ℕ, ◌-◌, ◌≤◌, ◌≡◌, refl, ap, Bool, true, false, not, ◌&&◌,
  List, [], ◌∷◌, ◌++◌, none, some, ◌==◌, any, length, arith,
}
use accp.Text.{Text, is_empty, trim_start, is_space}
use accp.GitLinks.{every}
use accp.GitLinks.Blockers.{
  ArchiveBlocker, eat, digits, is_digit, is_line_end, rest_of_line, showing_at, legacy_at,
  first_match, value_of, to_number, rounded, rest_of, extra_of, parse_archive_blockers, with_digit,
  some_digits, fold_unit,
}
use accp.GitLinks.Blockers.Printed.{
  is_plain, is_kind, is_blocker, token, further, joined, full_detail, partial_detail, both,
  plain_parts, every-append, token_plain, blockers_of-joined,
}

abbrev pub is_numeral : Text → Bool
is_numeral s = not (is_empty s) && every is_digit s

digit_solid : (c : ℕ) → is_digit c ≡ true → is_space c ≡ false
unfolding is_space
digit_solid c h = ground (arith, h)

trim_digits : (ds s : Text) → is_numeral ds ≡ true → trim_start (ds ++ s) ≡ ds ++ s
unfolding trim_start
trim_digits [] s h = absurd (cc h)
trim_digits (c ∷ ds) s h = rw (digit_solid c (both (is_digit c) (every is_digit ds) h).0) refl

digits_front :
    (ds : Text) (c : ℕ) (s : Text)
    → every is_digit ds ≡ true
    → is_digit c ≡ false
    → digits (ds ++ c ∷ s) ≡ (ds, c ∷ s)
unfolding digits
digits_front [] c s h k = rw k refl
digits_front (d ∷ ds) c s h k =
    let (here, rest) = both (is_digit d) (every is_digit ds) h in
    rw here (ap (with_digit d) (digits_front ds c s rest k))

numeral_front :
    (ds : Text) (c : ℕ) (s : Text)
    → is_numeral ds ≡ true
    → is_digit c ≡ false
    → some_digits (digits (ds ++ c ∷ s)) ≡ some (ds, c ∷ s)
numeral_front [] c s h k = absurd (cc h)
numeral_front (d ∷ ds) c s h k = ap some_digits (digits_front (d ∷ ds) c s h k)

-- No line ends here, and no parenthesis opens.
abbrev is_fine : ℕ → Bool
is_fine c = not (is_line_end c) && not (c == 40)

plain_fine : (c : ℕ) → is_plain c ≡ true → is_fine c ≡ true
unfolding is_space
plain_fine c h = ground (arith, h)

plain_text_fine : (s : Text) → every is_plain s ≡ true → every is_fine s ≡ true
plain_text_fine [] h = refl
plain_text_fine (c ∷ s) h =
    let (here, rest) = both (is_plain c) (every is_plain s) h in
    rw (plain_fine c here) (plain_text_fine s rest)

further_fine :
    (bs : List ArchiveBlocker) → every is_blocker bs ≡ true → every is_fine (further bs) ≡ true
further_fine [] h = refl
further_fine (b ∷ bs) h =
    let (here, rest) = both (is_blocker b) (every is_blocker bs) h in
    every-append is_fine (token b) (further bs) (plain_text_fine _ (token_plain b here))
      (further_fine bs rest)

joined_fine :
    (bs : List ArchiveBlocker) → every is_blocker bs ≡ true → every is_fine (joined bs) ≡ true
joined_fine [] h = refl
joined_fine (b ∷ bs) h = further_fine (b ∷ bs) h

one_line : (s : Text) → every is_fine s ≡ true → any is_line_end s ≡ false
one_line [] h = refl
one_line (c ∷ s) h =
    let (here, rest) = both (is_fine c) (every is_fine s) h in rw (no_end c here) (one_line s rest)
  where
    no_end : (c : ℕ) → is_fine c ≡ true → is_line_end c ≡ false
    no_end c e = ground (arith, e)

no_showing : (s : Text) → every is_fine s ≡ true → first_match showing_at s ≡ none
unfolding first_match eat
no_showing [] h = refl
no_showing (c ∷ s) h =
    let (here, rest) = both (is_fine c) (every is_fine s) h in
    rw (no_brace c here) (no_showing s rest)
  where
    no_brace : (c : ℕ) → is_fine c ≡ true → (fold_unit c == 40) ≡ false
    no_brace c e = ground (arith, e)

token_front :
    (b : ArchiveBlocker) (s : Text) → is_blocker b ≡ true → trim_start (token b ++ s) ≡ token b ++ s
unfolding trim_start
token_front b s h = by b.kind (both (is_kind b.kind) (every is_plain b.id) h).0
  where
    by :
        (kind : Text)
        → is_kind kind ≡ true
        → trim_start ((kind ++ 58 ∷ b.id) ++ s) ≡ (kind ++ 58 ∷ b.id) ++ s
    by [] e = absurd (cc e)
    by (c ∷ k) e =
        let (here, _) =
          both (is_plain c && not (c == 58)) (every (λ c. is_plain c && not (c == 58)) k) e in
        rw (plain_parts c (both (is_plain c) (not (c == 58)) here).0).0 refl

line_of_joined :
    (b : ArchiveBlocker) (bs : List ArchiveBlocker)
    → every is_blocker (b ∷ bs) ≡ true
    → rest_of_line (32 ∷ joined (b ∷ bs)) ≡ some (joined (b ∷ bs))
unfolding trim_start is_space
line_of_joined b bs h =
    let (here, rest) = both (is_blocker b) (every is_blocker bs) h in
    rw (token_front b (further bs) here)
      (rw (one_line (joined (b ∷ bs)) (joined_fine (b ∷ bs) h)) refl)

showing_full :
    (b : ArchiveBlocker) (bs : List ArchiveBlocker)
    → every is_blocker (b ∷ bs) ≡ true
    → first_match showing_at (full_detail (b ∷ bs)) ≡ none
unfolding first_match eat
showing_full b bs h = no_showing (joined (b ∷ bs)) (joined_fine (b ∷ bs) h)

legacy_full :
    (b : ArchiveBlocker) (bs : List ArchiveBlocker)
    → every is_blocker (b ∷ bs) ≡ true
    → first_match legacy_at (full_detail (b ∷ bs)) ≡ some (joined (b ∷ bs))
unfolding first_match eat
legacy_full b bs h = rw (line_of_joined b bs h) refl

showing_partial :
    (shown total : Text) (b : ArchiveBlocker) (bs : List ArchiveBlocker)
    → is_numeral shown ≡ true
    → is_numeral total ≡ true
    → every is_blocker (b ∷ bs) ≡ true
    → first_match showing_at (partial_detail shown total (b ∷ bs)) ≡ some (total, joined (b ∷ bs))
unfolding first_match eat trim_start is_space
showing_partial shown total b bs n m h =
    let list = joined (b ∷ bs) in
    let behind = 111 ∷ 102 ∷ 32 ∷ (total ++ 41 ∷ 58 ∷ 32 ∷ list) in
    rw (trim_digits shown (32 ∷ behind) n) (
      rw (numeral_front shown 32 behind n refl) (
        rw (trim_digits total (41 ∷ 58 ∷ 32 ∷ list) m)
          (rw (numeral_front total 41 (58 ∷ 32 ∷ list) m refl) (rw (line_of_joined b bs h) refl))))

to_number_small : (n : ℕ) → n < 2 ^ 53 → to_number n ≡ some n
unfolding to_number
to_number_small n h = ap (λ b. if b then some n else rounded n) (lt→ltb n (2 ^ 53) h)

extra_exact :
    (total list : Text) (shown : ℕ)
    → value_of 0 total < 2 ^ 53
    → extra_of (some (total, list)) shown ≡ value_of 0 total - shown
extra_exact total list shown h =
    ap (λ o. rest_of o shown) (to_number_small (value_of 0 total) h)
    ∙ ap (λ o. elim o [ none ↦ 0 | some n ↦ n ])
        (to_number_small (value_of 0 total - shown) (omega (arith, h)))

-- The message of the server about at most 20 blockers is read back: from the form that lists all of
-- them come these blockers and no extra ones, from the form that says how many there are come these
-- blockers and, as extra ones, the difference. Kinds are to have no colon and not to be empty, and
-- neither kinds nor ids to have a space, a comma or an opening parenthesis; the number is below 2^53.
pub parse_archive_blockers-detail :
    (shown total : Text) (b : ArchiveBlocker) (bs : List ArchiveBlocker)
    → is_numeral shown ≡ true
    → is_numeral total ≡ true
    → every is_blocker (b ∷ bs) ≡ true
    → length (b ∷ bs) ≤ 20
    → value_of 0 total < 2 ^ 53
    → (parse_archive_blockers (full_detail (b ∷ bs)) ≡ (b ∷ bs, 0))
      × (parse_archive_blockers (partial_detail shown total (b ∷ bs))
          ≡ (b ∷ bs, value_of 0 total - length (b ∷ bs)))
unfolding parse_archive_blockers
parse_archive_blockers-detail shown total b bs n m h few exact =
    let list = blockers_of-joined b bs h few in
    (
      rw (showing_full b bs h) (rw (legacy_full b bs h) (rw list refl)),
      rw (showing_partial shown total b bs n m h) (
          rw list
            (ap (λ x. (b ∷ bs, x)) (extra_exact total (joined (b ∷ bs)) (length (b ∷ bs)) exact))),
    )

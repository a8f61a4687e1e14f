-- ===== src/GitLinks/Blockers/Printed.antt =====
-- web/src/archiveBlockers.ts: the list of the message, read back.
use accp.Prelude.{
  ℕ, zero, suc, ◌≤◌, ◌≡◌, ◌≢◌, refl, ap, ◌∙◌, Bool, true, false, not, ◌&&◌, List, [], ◌∷◌, ◌++◌,
  map, some, ◌==◌, if◌then◌else◌, filter, take, drop, length, arith, append-nil,
}
use accp.Text.{
  Text, codes, is_empty, trim, trim_start, trim_end, is_space, split, index_of, starts_with,
  Without,
}
use accp.Text.Parts.{split_of_Without, split-append}
use accp.GitLinks.{every}
use accp.GitLinks.Blockers.{ArchiveBlocker, token_blocker, blockers_of}

-- No space, no comma, no parenthesis.
abbrev pub is_plain : ℕ → Bool
is_plain c = not (is_space c) && not (c == 44) && not (c == 40)

abbrev pub is_kind : Text → Bool
is_kind s = not (is_empty s) && every (λ c. is_plain c && not (c == 58)) s

abbrev pub is_blocker : ArchiveBlocker → Bool
is_blocker b = is_kind b.kind && every is_plain b.id

abbrev pub token : ArchiveBlocker → Text
token b = b.kind ++ 58 ∷ b.id

abbrev pub further : List ArchiveBlocker → Text
further [] = []
further (b ∷ bs) = 44 ∷ 32 ∷ (token b ++ further bs)

-- `strings.Join(ids, ", ")`
abbrev pub joined : List ArchiveBlocker → Text
joined [] = []
joined (b ∷ bs) = token b ++ further bs

abbrev pub advice : Text
advice = codes "Finish or cancel tasks and reconcile operations first "

abbrev pub full_detail : List ArchiveBlocker → Text
full_detail bs = advice ++ (codes "(up to 20): " ++ joined bs)

abbrev pub partial_detail : (shown total : Text) → List ArchiveBlocker → Text
partial_detail shown total bs =
    advice
    ++ (codes "(showing " ++ (shown ++ (codes " of " ++ (total ++ (codes "): " ++ joined bs)))))

pub both : (a b : Bool) → (a && b) ≡ true → (a ≡ true) × (b ≡ true)
both a b h = ground (arith, h)

pub plain_parts : (c : ℕ) → is_plain c ≡ true → (is_space c ≡ false) × (c ≢ 44) × (c == 40 ≡ false)
plain_parts c h = (ground (arith, h), ground (arith, h), ground (arith, h))

plain-Without : (s : Text) → every is_plain s ≡ true → Without 44 s
plain-Without [] h = tt
plain-Without (c ∷ s) h =
    let (here, rest) = both (is_plain c) (every is_plain s) h in
    ((plain_parts c here).1, plain-Without s rest)

trim_end_plain : (s : Text) → every is_plain s ≡ true → trim_end s ≡ s
unfolding trim_end
trim_end_plain [] h = refl
trim_end_plain (c ∷ s) h =
    let (here, rest) = both (is_plain c) (every is_plain s) h in
    rw (trim_end_plain s rest) (by_rest s (plain_parts c here).0)
  where
    by_rest :
        (t : Text)
        → is_space c ≡ false
        → elim t [ [] ↦ if is_space c then [] else c ∷ [] | d ∷ u ↦ c ∷ d ∷ u ] ≡ c ∷ t
    by_rest [] e = rw e refl
    by_rest (d ∷ u) e = refl

trim_start_plain : (s : Text) → every is_plain s ≡ true → trim_start s ≡ s
unfolding trim_start
trim_start_plain [] h = refl
trim_start_plain (c ∷ s) h = rw (plain_parts c (both (is_plain c) (every is_plain s) h).0).0 refl

trim_plain : (s : Text) → every is_plain s ≡ true → trim s ≡ s
unfolding trim
trim_plain s h = ap trim_end (trim_start_plain s h) ∙ trim_end_plain s h

trim_spaced : (s : Text) → every is_plain s ≡ true → trim (32 ∷ s) ≡ s
unfolding trim trim_start is_space
trim_spaced s h = ap trim_end (trim_start_plain s h) ∙ trim_end_plain s h

pub every-append :
    (p : ℕ → Bool) (s t : Text) → every p s ≡ true → every p t ≡ true → every p (s ++ t) ≡ true
every-append p [] t h k = k
every-append p (c ∷ s) t h k =
    let (here, rest) = both (p c) (every p s) h in rw here (every-append p s t rest k)

kind_plain :
    (s : Text) → every (λ c. is_plain c && not (c == 58)) s ≡ true → every is_plain s ≡ true
kind_plain [] h = refl
kind_plain (c ∷ s) h =
    let (here, rest) =
      both (is_plain c && not (c == 58)) (every (λ c. is_plain c && not (c == 58)) s) h in
    rw (both (is_plain c) (not (c == 58)) here).0 (kind_plain s rest)

pub token_plain : (b : ArchiveBlocker) → is_blocker b ≡ true → every is_plain (token b) ≡ true
unfolding is_space
token_plain b h =
    let (k, i) = both (is_kind b.kind) (every is_plain b.id) h in
    every-append is_plain b.kind (58 ∷ b.id)
      (kind_plain b.kind
        (both (not (is_empty b.kind)) (every (λ c. is_plain c && not (c == 58)) b.kind) k).1)
      i

split-further :
    (p : Text) (bs : List ArchiveBlocker)
    → Without 44 p
    → every is_blocker bs ≡ true
    → split 44 (p ++ further bs) ≡ p ∷ map (λ b. 32 ∷ token b) bs
split-further p [] h k = ap (split 44) (append-nil p) ∙ split_of_Without 44 p h
split-further p (b ∷ bs) h k =
    let (here, rest) = both (is_blocker b) (every is_blocker bs) k in
    split-append 44 p (32 ∷ (token b ++ further bs)) h
    ∙ ap (λ ps. p ∷ ps)
        (split-further (32 ∷ token b) bs
          ((λ e. ground arith), plain-Without (token b) (token_plain b here)) rest)

index_of_colon :
    (k s : Text)
    → every (λ c. is_plain c && not (c == 58)) k ≡ true
    → index_of (58 ∷ []) (k ++ 58 ∷ s) ≡ some (length k)
unfolding index_of starts_with
index_of_colon [] s h = refl
index_of_colon (c ∷ k) s h =
    let (here, rest) =
      both (is_plain c && not (c == 58)) (every (λ c. is_plain c && not (c == 58)) k) h in
    rw (not_colon c (both (is_plain c) (not (c == 58)) here).1) (rw (index_of_colon k s rest) refl)
  where
    not_colon : (c : ℕ) → not (c == 58) ≡ true → (58 == c) ≡ false
    not_colon c h = ground (arith, h)

take_front : (k s : Text) → take (length k) (k ++ s) ≡ k
take_front [] s = refl
take_front (c ∷ k) s = ap (λ u. c ∷ u) (take_front k s)

drop_front : (k : Text) (c : ℕ) (s : Text) → drop (suc (length k)) (k ++ c ∷ s) ≡ s
drop_front [] c s = refl
drop_front (d ∷ k) c s = drop_front k c s

token_blocker-token : (b : ArchiveBlocker) → is_blocker b ≡ true → token_blocker (token b) ≡ b
unfolding token_blocker
token_blocker-token b h = let (k, i) = both (is_kind b.kind) (every is_plain b.id) h in by b.kind k
  where
    by :
        (kind : Text)
        → is_kind kind ≡ true
        → token_blocker (kind ++ 58 ∷ b.id) ≡ record { kind = kind; id = b.id }
    by [] e = absurd (cc e)
    by (c ∷ k) e =
        rw (index_of_colon (c ∷ k) b.id e)
          (rw (take_front k (58 ∷ b.id)) (rw (drop_front k 58 b.id) refl))

tokens_solid : (b : ArchiveBlocker) → is_blocker b ≡ true → is_empty (token b) ≡ false
tokens_solid b h = by b.kind (both (is_kind b.kind) (every is_plain b.id) h).0
  where
    by : (kind : Text) → is_kind kind ≡ true → is_empty (kind ++ 58 ∷ b.id) ≡ false
    by [] e = absurd (cc e)
    by (c ∷ k) e = refl

read_back :
    (bs : List ArchiveBlocker)
    → every is_blocker bs ≡ true
    → map token_blocker
        (filter (λ part. not (is_empty part)) (map trim (map (λ b. 32 ∷ token b) bs)))
      ≡ bs
read_back [] h = refl
read_back (b ∷ bs) h =
    let (here, rest) = both (is_blocker b) (every is_blocker bs) h in
    rw (trim_spaced (token b) (token_plain b here)) (
      rw (tokens_solid b here) (
        ap
          (λ x.
            x
            ∷ map token_blocker
                (filter (λ part. not (is_empty part)) (map trim (map (λ b. 32 ∷ token b) bs))))
          (token_blocker-token b here)
        ∙ ap (λ xs. b ∷ xs) (read_back bs rest)))

take_all : (n : ℕ) (bs : List ArchiveBlocker) → length bs ≤ n → take n bs ≡ bs
take_all zero [] h = refl
take_all zero (b ∷ bs) h = absurd (omega (arith, h))
take_all (suc n) [] h = refl
take_all (suc n) (b ∷ bs) h = ap (λ xs. b ∷ xs) (take_all n bs (omega (arith, h)))

pub blockers_of-joined :
    (b : ArchiveBlocker) (bs : List ArchiveBlocker)
    → every is_blocker (b ∷ bs) ≡ true
    → length (b ∷ bs) ≤ 20
    → blockers_of (joined (b ∷ bs)) ≡ b ∷ bs
unfolding blockers_of
blockers_of-joined b bs h few =
    let (here, rest) = both (is_blocker b) (every is_blocker bs) h in
    ap
      (λ parts. take 20 (map token_blocker (filter (λ part. not (is_empty part)) (map trim parts))))
      (split-further (token b) bs (plain-Without (token b) (token_plain b here)) rest)
    ∙ rw (trim_plain (token b) (token_plain b here)) (
        rw (tokens_solid b here) (
          ap
            (λ x. take 20 (
              x
              ∷ map token_blocker
                  (filter (λ part. not (is_empty part)) (map trim (map (λ b. 32 ∷ token b) bs)))))
            (token_blocker-token b here)
          ∙ ap (λ xs. take 20 (b ∷ xs)) (read_back bs rest)
          ∙ take_all 20 (b ∷ bs) few))

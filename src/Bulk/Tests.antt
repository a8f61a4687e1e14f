-- ===== src/Bulk/Tests.antt =====
-- A bulk run, and the theorems at it.
use accp.Prelude.{ℕ, suc, ◌≡◌, refl, List, [], ◌∷◌, Option, none, some, if◌then◌else◌}
use accp.Text.{Text, codes, text_eq}
use accp.Bulk.{run_bulk, bulk_summary}

abbrev tasks : List Text
tasks = codes "a" ∷ codes "b" ∷ codes "c" ∷ []

-- Counts the calls, and fails for one task.
abbrev archive : Text → ℕ → Option ℕ × ℕ
archive id n = (if text_eq id (codes "b") then some 409 else none, suc n)

archive_run :
    bulk_summary ℕ ℕ (run_bulk ℕ ℕ tasks archive 0).0
    ≡ record { succeeded = codes "a" ∷ codes "c" ∷ []; failed = (codes "b", some 409) ∷ [] }
unfolding bulk_summary run_bulk text_eq
archive_run = refl

-- ===== src/Api/Download/Tests.antt =====
-- `API.download` at a concrete header.
use accp.Prelude.{◌≡◌, refl, some, length, arith}
use accp.Text.{codes, index_of, starts_with, Without}
use accp.Api.Download.{file_name, file_name_in, until_quote}

file_name_run :
    file_name (some (codes "attachment; filename=audit.csv; size=3")) ≡ codes "audit.csv; size=3"
unfolding file_name file_name_in until_quote starts_with
file_name_run = refl

first_there :
    index_of (codes "filename=") (codes "attachment; filename=\"audit.csv\"; size=3")
    ≡ some (length (codes "attachment; "))
unfolding index_of starts_with
first_there = refl

plain_name : Without 34 (codes "audit.csv")
plain_name = ground arith

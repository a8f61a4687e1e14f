-- ===== src/SavedViews/Tests.antt =====
-- Runs of the saved views, and the theorems at them.
use accp.Prelude.{
  ◌≡◌, refl, List, [], ◌∷◌, map, Option, none, some, arith, leb, ◌&&◌, if◌then◌else◌, ◌+◌,
}
use accp.Text.{Text, codes, text_eq, ne_of_text_eq, trim}
use accp.Json.{Json, arr}
use accp.SavedViews.{
  SavedView, to_json, upsert_saved_view, remove_saved_view, Storage, read_saved_views,
  write_saved_views,
}
use accp.SavedViews.Valid.{IsValid, remove_saved_view-IsValid}
use accp.SavedViews.Storing.{read-write}

-- `toLowerCase` on ASCII
abbrev ascii_lower : Text → Text
ascii_lower = map (λ c. if leb 65 c && leb c 90 then c + 32 else c)

abbrev mine : SavedView
mine = record { name = codes "Mine"; search = codes "?owner=me" }

abbrev views : List SavedView
views = mine ∷ record { name = codes "Done"; search = codes "?status=DONE" } ∷ []

views-IsValid : IsValid ascii_lower views
unfolding trim text_eq
views-IsValid = record {
  named = ((refl, λ e. cc), ((refl, λ e. cc), tt));
  distinct = ((ne_of_text_eq _ _ refl, tt), (tt, tt));
  few = omega arith;
}

upsert_run :
    upsert_saved_view ascii_lower views (codes " MINE ") (codes "?q=a")
    ≡ record { name = codes "Done"; search = codes "?status=DONE" }
      ∷ record { name = codes "MINE"; search = codes "?q=a" }
      ∷ []
unfolding upsert_saved_view text_eq trim
upsert_run = refl

abbrev stored_text : Json → Text
stored_text j = codes "x"

abbrev stored_value : Text → Option Json
stored_value t = some (arr (to_json views))

remove_saved_view-IsValid_example :
    IsValid ascii_lower (remove_saved_view ascii_lower views (codes "DONE"))
remove_saved_view-IsValid_example =
    remove_saved_view-IsValid ascii_lower views (codes "DONE") views-IsValid

abbrev kept_text : Text → Option (Option Text)
kept_text key = some (some (codes "x"))

abbrev browser_storage : Storage
browser_storage = record { get_item = λ key. some none; set_item = λ key value. some kept_text }

read-write_example :
    read_saved_views ascii_lower stored_value
      (record browser_storage {
        get_item = write_saved_views stored_text browser_storage (codes "p") views;
      })
      (codes "p")
    ≡ views
read-write_example =
    read-write ascii_lower stored_value stored_text browser_storage (codes "p") views kept_text
      views-IsValid refl (λ e. cc) refl refl

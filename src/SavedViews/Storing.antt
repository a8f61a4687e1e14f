-- ===== src/SavedViews/Storing.antt =====
-- Writing saved views to the storage and reading them back.
use mathlib.Core.Option
use accp.Prelude.{
  ◌+◌, ◌≤◌, ◌≡◌, refl, sym, ap, ◌≢◌, ◌∙◌, inl, inr, false, List, [], ◌∷◌, ◌++◌, Option, some, arith,
  if◌then◌else◌, append_assoc, append-nil, leb, leb→le, length, length-append, any, All, Bool-cases,
}
use accp.Text.{Text, codes, text_eq, text_eq_iff, is_empty}
use accp.Json.{Json, Items, arr, obj, str, cons, end, member, property}
use accp.SavedViews.{
  SavedView, max_saved_views, same_name, read_entry, collect, parse_saved_views, to_json,
  serialize_saved_views, Storage, read_saved_views, write_saved_views, saved_views_key, behind,
  or_empty,
}
use accp.SavedViews.Valid.{IsNamed, Differs, AreDistinct, IsValid}

abbrev entry_of : SavedView → Json
entry_of v = obj (member (codes "name") (str v.name) (member (codes "search") (str v.search) end))

read_entry-entry_of : (v : SavedView) → read_entry (entry_of v) ≡ some v
unfolding read_entry property text_eq
read_entry-entry_of v = refl

is_empty_of_ne : (s : Text) → s ≢ [] → is_empty s ≡ false
is_empty_of_ne [] h = absurd (h refl)
is_empty_of_ne (c ∷ s) h = refl

module _ (lower : Text → Text) where
  -- In a distinct list, what stands before a view has other names.
  any_of_AreDistinct :
      (us vs : List SavedView) (v : SavedView)
      → AreDistinct lower (us ++ v ∷ vs)
      → any (λ u. same_name lower u.name v.name) us ≡ false
  any_of_AreDistinct [] vs v d = refl
  any_of_AreDistinct (u ∷ us) vs v (a, d) = ground (
    arith,
    text_eq_iff (lower u.name) (lower v.name),
    All-middle us a,
    any_of_AreDistinct us vs v d,
  )
    where
      All-middle : (ws : List SavedView) → All (Differs lower u) (ws ++ v ∷ vs) → Differs lower u v
      All-middle [] h = h.0
      All-middle (w ∷ ws) h = All-middle ws h.1

  collect-cons :
      (v : SavedView) (rest : Items) (us : List SavedView)
      → IsNamed v
      → any (λ u. same_name lower u.name v.name) us ≡ false
      → collect lower (cons (entry_of v) rest) us ≡ (
          if leb max_saved_views (length (us ++ v ∷ []))
          then us ++ v ∷ []
          else collect lower rest (us ++ v ∷ []))
  unfolding collect property text_eq
  collect-cons v rest us (trimmed, full) fresh = rw (trimmed, is_empty_of_ne v.name full, fresh)

  -- The loop takes back what `serializeSavedViews` wrote.
  collect-to_json :
      (vs us : List SavedView)
      → All IsNamed vs
      → AreDistinct lower (us ++ vs)
      → length us + length vs ≤ max_saved_views
      → collect lower (to_json vs) us ≡ us ++ vs
  unfolding to_json
  collect-to_json [] us n d few = unfold collect in sym (append-nil us)
  collect-to_json (v ∷ vs) us (here, n) d few =
      collect-cons v (to_json vs) us here (any_of_AreDistinct us vs v d)
      ∙ elim (Bool-cases (leb max_saved_views (length (us ++ v ∷ [])))) [
        | inl full ↦
            rw full (
              last vs (omega (arith, counted, leb→le max_saved_views (length (us ++ v ∷ [])) full)))
        | inr room ↦ rw room (
            collect-to_json vs (us ++ v ∷ []) n (rw (append_assoc us (v ∷ []) vs) d)
              (omega (arith, counted))
            ∙ append_assoc us (v ∷ []) vs)
      ]
    where
      counted : length (us ++ v ∷ []) ≡ length us + 1
      counted = length-append us (v ∷ [])

      last : (ws : List SavedView) → length ws ≡ 0 → us ++ v ∷ [] ≡ us ++ v ∷ ws
      last [] e = refl
      last (w ∷ ws) e = absurd (omega arith)

  parse-serialize :
      (parse : Text → Option Json) (stringify : Json → Text) (views : List SavedView)
      → IsValid lower views
      → parse (stringify (arr (to_json views))) ≡ some (arr (to_json views))
      → stringify (arr (to_json views)) ≢ []
      → parse_saved_views lower parse (some (serialize_saved_views stringify views)) ≡ views
  unfolding parse_saved_views serialize_saved_views
  parse-serialize parse stringify views v back full =
      rw (is_empty_of_ne _ full, back)
        (collect-to_json views [] v.named v.distinct (omega (arith, v.few)))

  -- Views that are fit to be stored are read back as they were written, if the storage takes the
  -- write and gives back the text, and `JSON.parse` takes back what `JSON.stringify` wrote for them.
  pub read-write :
      (parse : Text → Option Json) (stringify : Json → Text) (storage : Storage) (project_id : Text)
      (views : List SavedView) (reads : Text → Option (Option Text))
      → IsValid lower views
      → parse (stringify (arr (to_json views))) ≡ some (arr (to_json views))
      → stringify (arr (to_json views)) ≢ []
      → storage.set_item (saved_views_key project_id) (stringify (arr (to_json views))) ≡ some reads
      → reads (saved_views_key project_id) ≡ some (some (stringify (arr (to_json views))))
      → read_saved_views lower parse
          (record storage { get_item = write_saved_views stringify storage project_id views })
          project_id
        ≡ views
  unfolding read_saved_views write_saved_views
  read-write parse stringify storage project_id views reads v back full written kept =
      ap (λ r. read_from (behind storage.get_item r (saved_views_key project_id))) written
      ∙ ap read_from kept
      ∙ parse-serialize parse stringify views v back full
    where
      read_from : Option (Option Text) → List SavedView
      read_from o = or_empty (Option.map (parse_saved_views lower parse) o)

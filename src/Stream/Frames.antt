-- ===== src/Stream/Frames.antt =====
-- `splitFrames`, `parseFrame` and `pageHasItems` of web/src/app/useEventStream.ts.
pub mod Splitting
pub mod Chunks
pub mod Boundary
pub mod Parsing
mod Tests
use accp.Prelude.{
  ℕ, zero, suc, ◌+◌, ◌≡◌, refl, Bool, true, false, ◌&&◌, ◌||◌, List, [], ◌∷◌, ◌++◌, map, Option,
  none, some, ◌==◌, if◌then◌else◌, length, take, drop,
}
use accp.Text.{Text, codes, text_eq, is_empty, starts_with, index_of, split, join}
use accp.Json.{Json, null, bool, num, str, arr, obj, Items, nil, cons, property}

abbrev pub lf : ℕ
lf = 10

abbrev pub cr : ℕ
cr = 13

abbrev pub colon : ℕ
colon = 58

-- `replace(/\r\n/g, "\n")`: a carriage return that stands before a line feed goes.
pub replace_crlf : Text → Text
replace_crlf [] = []
replace_crlf (c ∷ s) =
    let rest = replace_crlf s in if c == cr && starts_with (lf ∷ []) s then rest else c ∷ rest

-- `replace(/\r/g, "\n")`
pub replace_cr : Text → Text
replace_cr = map (λ c. if c == cr then lf else c)

unfoldable pub normalize : Text → Text
unfolding replace_crlf replace_cr
normalize buffer = replace_cr (replace_crlf buffer)

-- a blank line
abbrev pub blank : Text
blank = lf ∷ lf ∷ []

-- The `while` loop of `splitFrames`. Each round takes two code units or more off `rest`, so fuel
-- for its length is enough.
pub split_loop : (fuel : ℕ) → List Text → Text → List Text × Text
split_loop zero frames rest = (frames, rest)
split_loop (suc fuel) frames rest = elim (index_of blank rest) [
  | none ↦ (frames, rest)
  | some index ↦ split_loop fuel (frames ++ take index rest ∷ []) (drop (index + 2) rest)
]

unfoldable pub split_frames : Text → List Text × Text
unfolding split_loop
split_frames buffer =
    let normalized = normalize buffer in split_loop (suc (length normalized)) [] normalized

pub record SseFrame : Type 0 where
  pub event : Text
  pub content : Text
  pub id : Text

-- The variables of the loop in `parseFrame`.
pub record Fields : Type 0 where
  pub event : Text
  pub data_lines : List Text
  pub id : Text

abbrev pub no_fields : Fields
no_fields = record { event = codes "message"; data_lines = []; id = [] }

-- the branch over the field's name
pub store_field : Text → Text → Fields → Fields
store_field field value fs =
    if text_eq field (codes "event")
    then record fs { event = value }
    else (if text_eq field (codes "data")
        then record fs { data_lines = fs.data_lines ++ value ∷ [] }
        else (if text_eq field (codes "id") then record fs { id = value } else fs))

-- One leading space of a value is dropped.
pub trim_space : Text → Text
trim_space value = if starts_with (codes " ") value then drop 1 value else value

-- one round of the loop in `parseFrame`
pub read_line : Text → Fields → Fields
unfolding store_field trim_space
read_line l fs =
    if is_empty l || starts_with (colon ∷ []) l then fs else elim (index_of (colon ∷ []) l) [
      | none ↦ store_field l (trim_space []) fs
      | some at ↦ store_field (take at l) (trim_space (drop (at + 1) l)) fs
    ]

pub read_lines : List Text → Fields → Fields
unfolding read_line
read_lines [] fs = fs
read_lines (l ∷ ls) fs = read_lines ls (read_line l fs)

unfoldable pub parse_frame : Text → SseFrame
unfolding read_lines
parse_frame raw =
    let fs = read_lines (split lf raw) no_fields in
    record { event = fs.event; content = join lf fs.data_lines; id = fs.id }

-- `Array.isArray(page.items) && page.items.length > 0`
abbrev is_filled : Option Json → Bool
is_filled (some (arr (cons v vs))) = true
is_filled _ = false

abbrev page_items : Option Json → Option Json
page_items (some (obj ms)) = property (codes "items") ms
page_items _ = none

-- `pageHasItems`, over what `JSON.parse` gives; an exception there is `none`.
unfoldable pub page_has_items : (Text → Option Json) → Text → Bool
page_has_items parse content = is_filled (page_items (parse content))

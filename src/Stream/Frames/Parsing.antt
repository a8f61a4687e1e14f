-- ===== src/Stream/Frames/Parsing.antt =====
-- `parseFrame` against the form in which a server writes a frame.
use accp.Prelude.{
  ◌≡◌, refl, ap, ◌∙◌, List, [], ◌∷◌, ◌++◌, map, arith, append_assoc, append-nil, sym, All,
  All-append,
}
use accp.Text.{Text, codes, text_eq, starts_with, index_of, join, Without}
use accp.Text.Parts.{split-join}
use accp.Stream.Frames.{lf, colon, SseFrame, Fields, no_fields, read_line, read_lines, parse_frame}

-- a line `name: value`
abbrev pub field_line : Text → Text → Text
field_line name value = name ++ colon ∷ 32 ∷ value

-- A line of a frame: a field, or a comment.
pub data Line : Type 0 where
  event_line id_line data_line comment : Text → Line

abbrev pub line_text : Line → Text
line_text (event_line v) = field_line (codes "event") v
line_text (id_line v) = field_line (codes "id") v
line_text (data_line v) = field_line (codes "data") v
line_text (comment v) = colon ∷ v

-- A frame as the event stream format writes it: its lines, in any order.
abbrev pub frame_text : List Line → Text
frame_text ls = join lf (map line_text ls)

-- What a line has in it.
abbrev pub value_of : Line → Text
value_of (event_line v) = v
value_of (id_line v) = v
value_of (data_line v) = v
value_of (comment v) = v

-- The last event that is named, the last id, and all lines of data.
abbrev pub last_event : Text → List Line → Text
last_event e [] = e
last_event e (event_line v ∷ ls) = last_event v ls
last_event e (_ ∷ ls) = last_event e ls

abbrev pub last_id : Text → List Line → Text
last_id i [] = i
last_id i (id_line v ∷ ls) = last_id v ls
last_id i (_ ∷ ls) = last_id i ls

abbrev pub all_data : List Line → List Text
all_data [] = []
all_data (data_line v ∷ ls) = v ∷ all_data ls
all_data (_ ∷ ls) = all_data ls

module _ (v : Text) (fs : Fields) where
  read_line-event : read_line (field_line (codes "event") v) fs ≡ record fs { event = v }
  unfolding read_line text_eq starts_with index_of
  read_line-event = refl

  read_line-id : read_line (field_line (codes "id") v) fs ≡ record fs { id = v }
  unfolding read_line text_eq starts_with index_of
  read_line-id = refl

  read_line-comment : read_line (colon ∷ v) fs ≡ fs
  unfolding read_line starts_with
  read_line-comment = refl

  read_line-data :
      read_line (field_line (codes "data") v) fs
      ≡ record fs { data_lines = fs.data_lines ++ v ∷ [] }
  unfolding read_line text_eq starts_with index_of
  read_line-data = refl

-- What `frame_text` writes is read line by line.
read_lines-frame :
    (ls : List Line) (fs : Fields)
    → read_lines (map line_text ls) fs ≡ record {
      event = last_event fs.event ls;
      data_lines = fs.data_lines ++ all_data ls;
      id = last_id fs.id ls;
    }
unfolding read_lines
read_lines-frame [] fs = ap (λ ds. record fs { data_lines = ds }) (sym (append-nil fs.data_lines))
read_lines-frame (event_line v ∷ ls) fs =
    ap (read_lines (map line_text ls)) (read_line-event v fs)
    ∙ read_lines-frame ls (record fs { event = v })
read_lines-frame (id_line v ∷ ls) fs =
    ap (read_lines (map line_text ls)) (read_line-id v fs)
    ∙ read_lines-frame ls (record fs { id = v })
read_lines-frame (data_line v ∷ ls) fs =
    ap (read_lines (map line_text ls)) (read_line-data v fs)
    ∙ read_lines-frame ls (record fs { data_lines = fs.data_lines ++ v ∷ [] })
    ∙ ap (λ ds. record { event = last_event fs.event ls; data_lines = ds; id = last_id fs.id ls })
        (append_assoc fs.data_lines (v ∷ []) (all_data ls))
read_lines-frame (comment v ∷ ls) fs =
    ap (read_lines (map line_text ls)) (read_line-comment v fs) ∙ read_lines-frame ls fs

Without-field_line :
    (name v : Text) → Without lf name → Without lf v → Without lf (field_line name v)
Without-field_line name v h k =
    All-append _ name (colon ∷ 32 ∷ v) h (λ e. absurd (omega arith), (λ e. absurd (omega arith), k))

Without-line : (l : Line) → Without lf (value_of l) → Without lf (line_text l)
Without-line (event_line v) h = Without-field_line (codes "event") v (omega arith) h
Without-line (id_line v) h = Without-field_line (codes "id") v (omega arith) h
Without-line (data_line v) h = Without-field_line (codes "data") v (omega arith) h
Without-line (comment v) h = (λ e. absurd (omega arith), h)

lines-Without :
    (ls : List Line) → All (λ l. Without lf (value_of l)) ls → All (Without lf) (map line_text ls)
lines-Without [] h = h
lines-Without (l ∷ ls) (h, hs) = (Without-line l h, lines-Without ls hs)

-- A frame that consists of events, ids, lines of data and comments, in any order and at least one of
-- them, each without a line feed, is read as its last event, or "message" if there is none, its last
-- id, or none, and all its data in order.
pub parse_frame-frame_text :
    (l : Line) (ls : List Line)
    → All (λ l. Without lf (value_of l)) (l ∷ ls)
    → parse_frame (frame_text (l ∷ ls)) ≡ record {
      event = last_event (codes "message") (l ∷ ls);
      content = join lf (all_data (l ∷ ls));
      id = last_id [] (l ∷ ls);
    }
unfolding parse_frame
parse_frame-frame_text l ls (h, hs) =
    ap (λ ts. frame_of (read_lines ts no_fields))
      (split-join lf (line_text l) (map line_text ls) (Without-line l h) (lines-Without ls hs))
    ∙ ap frame_of (read_lines-frame (l ∷ ls) no_fields)
  where
    frame_of : Fields → SseFrame
    frame_of fs = record { event = fs.event; content = join lf fs.data_lines; id = fs.id }

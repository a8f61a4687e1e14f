-- ===== src/Stream/Frames/Tests.antt =====
-- Runs of `splitFrames` and `parseFrame`, and the theorems at them.
use accp.Prelude.{List, ◌≡◌, refl, [], ◌∷◌, ◌++◌, none, arith, All}
use accp.Text.{Text, codes, text_eq, starts_with, index_of, split, join}
use accp.Stream.Frames.{lf, cr, blank, normalize, split_frames, parse_frame}
use accp.Stream.Frames.Splitting.{ended, IsFrame, split_frames_exact}
use accp.Stream.Frames.Boundary.{split_frames-crlf_boundary}
use accp.Stream.Frames.Parsing.{
  Line, event_line, id_line, data_line, frame_text, last_event, last_id, all_data,
  parse_frame-frame_text,
}

abbrev buffer_text : Text
buffer_text = codes "event: accp.events" ++ lf ∷ codes "id: 7" ++ lf ∷ lf ∷ codes "data: x"

split_frames_run :
    split_frames buffer_text
    ≡ ((codes "event: accp.events" ++ lf ∷ codes "id: 7") ∷ [], codes "data: x")
unfolding split_frames starts_with index_of normalize
split_frames_run = refl

split_frames_exact_example :
    (normalize buffer_text ≡ ended (split_frames buffer_text).0 ++ (split_frames buffer_text).1)
    × All IsFrame (split_frames buffer_text).0
    × (index_of blank (split_frames buffer_text).1 ≡ none)
split_frames_exact_example = split_frames_exact buffer_text

split_frames-crlf_boundary_example :
    ((split_frames (codes "event: x" ++ cr ∷ lf ∷ codes "id: 7")).0 ≡ [])
    × (split_frames ((split_frames (codes "event: x" ++ cr ∷ [])).1 ++ lf ∷ codes "id: 7")
        ≡ (codes "event: x" ∷ [], codes "id: 7"))
split_frames-crlf_boundary_example =
    split_frames-crlf_boundary (codes "event: x") (codes "id: 7") (omega arith) (omega arith)
      (omega arith) (omega arith)

-- A page of events as internal/controlplane/events.go writes it.
abbrev page_lines : List Line
page_lines = id_line (codes "7") ∷ event_line (codes "accp.events") ∷ data_line (codes "{}") ∷ []

parse_frame-frame_text_example : parse_frame (frame_text page_lines) ≡ record {
  event = last_event (codes "message") page_lines;
  content = join lf (all_data page_lines);
  id = last_id [] page_lines;
}
parse_frame-frame_text_example =
    parse_frame-frame_text (id_line (codes "7"))
      (event_line (codes "accp.events") ∷ data_line (codes "{}") ∷ []) (omega arith)

parse_frame_run :
    parse_frame
      (codes "event: accp.events" ++ lf ∷ codes "id:7" ++ lf ∷ codes ":x" ++ lf ∷ codes "data:  a")
    ≡ record { event = codes "accp.events"; content = codes " a"; id = codes "7" }
unfolding parse_frame text_eq starts_with index_of split join
parse_frame_run = refl

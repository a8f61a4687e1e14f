-- ===== src/Stream/Connection/Tests.antt =====
-- Runs of the connection machine, and the theorems at them.
use accp.Prelude.{
  ℕ, suc, ◌+◌, ◌≡◌, refl, true, false, List, [], ◌∷◌, ◌++◌, Option, some, arith, length,
}
use accp.Text.{Text, codes, text_eq, starts_with, index_of, split, join}
use accp.Json.{Json, null, arr, obj, nil, cons, end, member, property}
use accp.Stream.Frames.{lf, normalize, split_frames, parse_frame, page_has_items}
use accp.Stream.Frames.Chunks.{splits_crlf}
use accp.Stream.Connection.{
  reconnecting, polling, reading, Conn, Input, responded, failed, chunk, ended as input_ended,
  reconnect_fired, cleanup, handle_frame, handle_frames, step, run, start,
}
use accp.Stream.Connection.Invariant.{IsValid, run-start-IsValid, run-stopped}
use accp.Stream.Connection.Chunks.{run-chunk-chunk}
use accp.Stream.Connection.Outage.{outage, IsDown, run-outage-IsDown}

-- A `JSON.parse` that knows one page.
abbrev one_page : Text → Option Json
one_page t = some (obj (member (codes "items") (arr (cons null nil)) end))

abbrev buffer_text : Text
buffer_text = codes "event: accp.events" ++ lf ∷ codes "id: 7" ++ lf ∷ lf ∷ codes "data: x"

abbrev begun : Conn
begun = start true (codes "p") (codes "t") false polling

abbrev session : List Input
session =
    responded 200 true 0 5
    ∷ chunk buffer_text
    ∷ input_ended 24000 6
    ∷ reconnect_fired
    ∷ failed 7
    ∷ []

session-run :
    ((run one_page session begun).cursor ≡ codes "7")
    × ((run one_page session begun).status ≡ reconnecting)
    × ((run one_page session begun).connects ≡ 2)
unfolding run start text_eq split_frames starts_with index_of normalize parse_frame split join
    page_has_items property handle_frames handle_frame
session-run = (refl, refl, refl)

-- Another project was being reconnected to.
run-start-IsValid_example :
    IsValid (run one_page session (start true (codes "p") (codes "t") false reconnecting))
run-start-IsValid_example =
    run-start-IsValid one_page true (codes "p") (codes "t") false reconnecting session (omega arith)

run-stopped_example :
    ((run one_page session (step one_page cleanup begun)).stopped ≡ true)
    × ((run one_page session (step one_page cleanup begun)).connects
        ≡ (step one_page cleanup begun).connects)
unfolding step
run-stopped_example = run-stopped one_page session (step one_page cleanup begun) refl

abbrev open_stream : Conn
open_stream = record begun { phase = reading (codes "a") false 0 }

run-chunk-chunk_example :
    run one_page (chunk (codes "b") ∷ chunk (lf ∷ lf ∷ []) ∷ []) open_stream
    ≡ run one_page (chunk (codes "b" ++ lf ∷ lf ∷ []) ∷ []) open_stream
unfolding splits_crlf
run-chunk-chunk_example =
    run-chunk-chunk one_page (codes "b") (lf ∷ lf ∷ []) (codes "a") false 0 open_stream refl refl

run-outage-IsDown_example :
    IsDown
      (length {A = ℕ} (2 ∷ 3 ∷ []) + suc begun.failures)
      (length {A = ℕ} (2 ∷ 3 ∷ []) + begun.connects)
      (run one_page (failed 1 ∷ outage (2 ∷ 3 ∷ [])) begun)
unfolding start
run-outage-IsDown_example = run-outage-IsDown one_page 1 (2 ∷ 3 ∷ []) begun refl refl refl

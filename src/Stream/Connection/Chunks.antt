-- ===== src/Stream/Connection/Chunks.antt =====
-- The reading loop and chunk boundaries: the machine ends in the same state however the stream is
-- cut into chunks.
use accp.Prelude.{
  ℕ, ◌≡◌, refl, sym, ap, ◌∙◌, Bool, false, List, [], ◌∷◌, ◌++◌, append_assoc, Option, arith,
}
use accp.Text.{Text}
use accp.Json.{Json}
use accp.Stream.Frames.{split_frames}
use accp.Stream.Frames.Chunks.{splits_crlf, split_frames-append}
use accp.Stream.Connection.{
  Phase, reading, Conn, chunk, handle_frame, handle_frames, receive, read_phase, step, run,
}

abbrev with_phase : Phase → Conn → Conn
with_phase p c = record c { phase = p }

module _ (parse : Text → Option Json) where
  abbrev handled : List Text → Conn → Bool → Conn × Bool
  handled fs c closed = handle_frames parse fs (c, closed)

  handle_frames-append :
      (fs gs : List Text) (s : Conn × Bool)
      → handle_frames parse (fs ++ gs) s ≡ handle_frames parse gs (handle_frames parse fs s)
  unfolding handle_frames
  handle_frames-append [] gs s = refl
  handle_frames-append (f ∷ fs) gs s = handle_frames-append fs gs (handle_frame parse f s)

  -- Frames are handled without regard to the phase.
  handle_frame-with_phase :
      (p : Phase) (f : Text) (c : Conn) (closed : Bool)
      → handle_frame parse f (with_phase p c, closed)
        ≡ (with_phase p (handle_frame parse f (c, closed)).0, (handle_frame parse f (c, closed)).1)
  unfolding handle_frame
  handle_frame-with_phase p f c closed = ground arith

  handle_frames-with_phase :
      (p : Phase) (fs : List Text) (c : Conn) (closed : Bool)
      → handled fs (with_phase p c) closed
        ≡ (with_phase p (handled fs c closed).0, (handled fs c closed).1)
  unfolding handle_frames
  handle_frames-with_phase p [] c closed = refl
  handle_frames-with_phase p (f ∷ fs) c closed =
      let s : Conn × Bool = handle_frame parse f (c, closed) in
      ap (handle_frames parse fs) (handle_frame-with_phase p f c closed)
      ∙ handle_frames-with_phase p fs s.0 s.1

  -- the state behind a round of the reading loop
  abbrev after : Conn × Bool → Text → ℕ → Conn
  after s rest started = with_phase (reading rest s.1 started) s.0

  module _ (a b buffer : Text) (closed : Bool) (started : ℕ) (c : Conn)
      (whole : splits_crlf (buffer ++ a) b ≡ false) where
    abbrev frames : Text → List Text
    frames t = (split_frames t).0

    abbrev rest : Text
    rest = (split_frames (buffer ++ a)).1

    abbrev last : Text
    last = (split_frames (rest ++ b)).1

    abbrev middle : Conn × Bool
    middle = handled (frames (buffer ++ a)) c closed

    receive-second :
        receive parse b rest middle.1 started (after middle rest started)
        ≡ after (handled (frames (rest ++ b)) middle.0 middle.1) last started
    unfolding receive
    receive-second =
        ap (λ s. after s last started)
          (handle_frames-with_phase (reading rest middle.1 started) (frames (rest ++ b)) middle.0
            middle.1)

    split_eq :
        split_frames (buffer ++ (a ++ b)) ≡ (frames (buffer ++ a) ++ frames (rest ++ b), last)
    split_eq =
        ap split_frames (sym (append_assoc buffer a b)) ∙ split_frames-append (buffer ++ a) b whole

    receive-whole :
        receive parse (a ++ b) buffer closed started c
        ≡ after (handled (frames (rest ++ b)) middle.0 middle.1) last started
    unfolding receive
    receive-whole =
        ap (λ (s : List Text × Text). after (handled s.0 c closed) s.1 started) split_eq
        ∙ ap (λ s. after s last started)
            (handle_frames-append (frames (buffer ++ a)) (frames (rest ++ b)) (c, closed))

  step-chunk :
      (value buffer : Text) (closed : Bool) (started : ℕ) (c : Conn)
      → c.phase ≡ reading buffer closed started
      → step parse (chunk value) c ≡ receive parse value buffer closed started c
  unfolding step read_phase
  step-chunk value buffer closed started c e = ap (λ p. read_phase parse p (chunk value) c) e

  -- Two chunks in turn leave the machine in the state in which both at once leave it, unless the
  -- boundary parts a carriage return from its line feed.
  pub run-chunk-chunk :
      (a b buffer : Text) (closed : Bool) (started : ℕ) (c : Conn)
      → c.phase ≡ reading buffer closed started
      → splits_crlf (buffer ++ a) b ≡ false
      → run parse (chunk a ∷ chunk b ∷ []) c ≡ run parse (chunk (a ++ b) ∷ []) c
  unfolding run receive
  run-chunk-chunk a b buffer closed started c reading_now whole =
      ap (step parse (chunk b)) (step-chunk a buffer closed started c reading_now)
      ∙ step-chunk b (split_frames (buffer ++ a)).1 _ started _ refl
      ∙ receive-second a b buffer closed started c whole
      ∙ sym (receive-whole a b buffer closed started c whole)
      ∙ sym (step-chunk (a ++ b) buffer closed started c reading_now)

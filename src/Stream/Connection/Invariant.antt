-- ===== src/Stream/Connection/Invariant.antt =====
-- The invariant of the connection machine, kept by every input.
use accp.Prelude.{
  ℕ, suc, ◌*◌, ◌/◌, ◌^◌, ◌≤◌, ◌<◌, ◌≡◌, refl, ◌∙◌, Bool, true, false, List, [], ◌∷◌, ◌++◌, All,
  Option, none, some, arith,
}
use accp.Text.{Text}
use accp.Json.{Json}
use accp.Stream.Frames.{split_frames}
use accp.Stream.Connection.{
  ConnectionState, reconnecting, polling, Phase, idle, fetching, reading, Conn, Input, responded,
  failed, chunk, ended, reconnect_fired, notify_fired, visibility, cleanup, max_backoff,
  polling_threshold, ceiling, backoff, notify, schedule, connect, give_up, respond, finish,
  handle_frame, handle_frames, receive, on_visibility, read_phase, step, run, start,
}

abbrev pub is_idle : Phase → Bool
is_idle idle = true
is_idle fetching = false
is_idle (reading _ _ _) = false

abbrev pub DelayWithin : Option ℕ → ℕ → Type 0
DelayWithin none most = Unit
DelayWithin (some delay) most = delay ≤ most

pub record IsValid (c : Conn) : Type 0 where
  -- While a stream is open or being opened, no second one is scheduled.
  pub single : is_idle c.phase ≡ false → c.reconnect_timer ≡ none
  -- A stopped machine has no further stream scheduled, and an aborted one is stopped.
  pub halted : c.stopped ≡ true → c.reconnect_timer ≡ none
  pub abort_stops : c.aborted ≡ true → c.stopped ≡ true
  -- The delay of the running timer is bounded.
  pub bounded : DelayWithin c.reconnect_timer max_backoff
  -- `reconnecting` is shown only below five failures in a row; from five on it is `polling`.
  pub hopeful : c.status ≡ reconnecting → c.failures < polling_threshold
  pub settled : c.stopped ≡ false → polling_threshold ≤ c.failures → c.status ≡ polling

pub ceiling-le : (failures : ℕ) → ceiling failures ≤ max_backoff
unfolding ceiling
ceiling-le failures = omega arith

fraction-le : (a b : ℕ) → a < 2 ^ 53 → a * b / 2 ^ 53 ≤ b
fraction-le a b h = grind arith

-- The delay lies between half the ceiling and the ceiling.
pub backoff_bounds :
    (failures random : ℕ)
    → random < 2 ^ 53
    → (ceiling failures / 2 ≤ backoff failures random)
      × (backoff failures random ≤ ceiling failures)
unfolding backoff
backoff_bounds failures random h =
    (omega arith, omega (arith, fraction-le random (ceiling failures / 2) h))

-- What the invariant needs of the parts of the machine that schedule nothing.
notify-IsValid : (c : Conn) → IsValid c → IsValid (notify c)
unfolding notify
notify-IsValid c v = ground arith

connect-IsValid : (c : Conn) → IsValid c → IsValid (connect c)
unfolding connect
connect-IsValid c v = ground arith

schedule-IsValid :
    (delay : ℕ) (c : Conn)
    → is_idle c.phase ≡ true
    → delay ≤ max_backoff
    → IsValid c
    → IsValid (schedule delay c)
unfolding schedule
schedule-IsValid delay c i h v = ground arith

give_up-IsValid : (random : ℕ) (c : Conn) → random < 2 ^ 53 → IsValid c → IsValid (give_up random c)
unfolding give_up
give_up-IsValid random c h v =
    ground (arith, backoff_bounds (suc c.failures) random, ceiling-le (suc c.failures))

-- The number that `Math.random` gives is below one.
abbrev pub IsFair : Input → Type 0
IsFair (responded status has_body now random) = random < 2 ^ 53
IsFair (failed random) = random < 2 ^ 53
IsFair (ended now random) = random < 2 ^ 53
IsFair _ = Unit

respond-IsValid :
    (status : ℕ) (has_body : Bool) (now random : ℕ) (c : Conn)
    → is_idle c.phase ≡ false
    → random < 2 ^ 53
    → IsValid c
    → IsValid (respond status has_body now random c)
unfolding respond
respond-IsValid status has_body now random c p h v = ground (arith, give_up-IsValid random c h v)

finish-IsValid :
    (closed : Bool) (started now random : ℕ) (c : Conn)
    → is_idle c.phase ≡ false
    → random < 2 ^ 53
    → IsValid c
    → IsValid (finish closed started now random c)
unfolding finish
finish-IsValid closed started now random c p h v = ground (
  arith,
  give_up-IsValid random c h v,
  backoff_bounds (suc c.failures) random,
  ceiling-le (suc c.failures),
)

module _ (parse : Text → Option Json) where
  -- Handling frames moves the cursor and sets the notify timer, and leaves all else alone.
  record Kept (c d : Conn) : Type 0 where
    phase : d.phase ≡ c.phase
    timer : d.reconnect_timer ≡ c.reconnect_timer
    stopped : d.stopped ≡ c.stopped
    aborted : d.aborted ≡ c.aborted
    status : d.status ≡ c.status
    failures : d.failures ≡ c.failures
    connects : d.connects ≡ c.connects

  handle_frame-Kept : (raw : Text) (c : Conn) (b : Bool) → Kept c (handle_frame parse raw (c, b)).0
  unfolding handle_frame
  handle_frame-Kept raw c b = ground arith

  handle_frames-Kept :
      (fs : List Text) (c : Conn) (b : Bool) → Kept c (handle_frames parse fs (c, b)).0
  unfolding handle_frames
  handle_frames-Kept [] c b = ground arith
  handle_frames-Kept (f ∷ fs) c b =
      let s : Conn × Bool = handle_frame parse f (c, b) in
      ground (arith, handle_frame-Kept f c b, handle_frames-Kept fs s.0 s.1)

  receive-IsValid :
      (value buffer : Text) (closed : Bool) (started : ℕ) (c : Conn)
      → is_idle c.phase ≡ false
      → IsValid c
      → IsValid (receive parse value buffer closed started c)
  unfolding receive
  receive-IsValid value buffer closed started c p v =
      let k = handle_frames-Kept (split_frames (buffer ++ value)).0 c closed in ground arith

  on_visibility-IsValid : (hidden : Bool) (c : Conn) → IsValid c → IsValid (on_visibility hidden c)
  unfolding on_visibility
  on_visibility-IsValid hidden c v = ground arith

  read_phase-IsValid :
      (p : Phase) (i : Input) (c : Conn)
      → c.phase ≡ p
      → IsFair i
      → IsValid c
      → IsValid (read_phase parse p i c)
  unfolding read_phase
  read_phase-IsValid fetching (responded status has_body now random) c e h v =
      respond-IsValid status has_body now random c (rw e) h v
  read_phase-IsValid fetching (failed random) c e h v = give_up-IsValid random c h v
  read_phase-IsValid (reading buffer closed started) (chunk value) c e h v =
      receive-IsValid value buffer closed started c (rw e) v
  read_phase-IsValid (reading buffer closed started) (ended now random) c e h v =
      finish-IsValid closed started now random c (rw e) h v
  read_phase-IsValid (reading buffer closed started) (failed random) c e h v =
      give_up-IsValid random c h v
  read_phase-IsValid _ _ c e h v = v

  step-IsValid : (i : Input) (c : Conn) → IsFair i → IsValid c → IsValid (step parse i c)
  unfolding step
  step-IsValid reconnect_fired c h v = ground (arith, connect-IsValid c v)
  step-IsValid notify_fired c h v = ground arith
  step-IsValid (visibility hidden) c h v = on_visibility-IsValid hidden c v
  step-IsValid cleanup c h v = ground arith
  step-IsValid i c h v = read_phase-IsValid c.phase i c refl h v

  run-IsValid : (is : List Input) (c : Conn) → All IsFair is → IsValid c → IsValid (run parse is c)
  unfolding run
  run-IsValid [] c h v = v
  run-IsValid (i ∷ is) c (h, hs) v = run-IsValid is (step parse i c) hs (step-IsValid i c h v)

  start-IsValid :
      (enabled : Bool) (project_id token : Text) (hidden : Bool) (status : ConnectionState)
      → IsValid (start enabled project_id token hidden status)
  unfolding start connect
  start-IsValid enabled project_id token hidden status = ground arith

-- From the start of the effect, with whatever state was shown before, every order of inputs keeps
-- the invariant, if each random number is below one: at most one stream is open, being opened or
-- scheduled, no further one is scheduled once the machine is stopped, as it is once it is aborted,
-- the delay of the timer is at most 30 seconds, `reconnecting` is shown only below five failures in
-- a row, and `polling` is shown from five on unless the machine is stopped.
pub run-start-IsValid :
    (parse : Text → Option Json) (enabled : Bool) (project_id token : Text) (hidden : Bool)
    (status : ConnectionState) (is : List Input)
    → All IsFair is
    → IsValid (run parse is (start enabled project_id token hidden status))
run-start-IsValid parse enabled project_id token hidden status is hs =
    run-IsValid parse is _ hs (start-IsValid parse enabled project_id token hidden status)

module _ (parse : Text → Option Json) where
  -- Stopped, and with as many connections as before.
  record Rests (c d : Conn) : Type 0 where
    stopped : d.stopped ≡ true
    connects : d.connects ≡ c.connects

  read_phase-Rests :
      (p : Phase) (i : Input) (c : Conn) → c.stopped ≡ true → Rests c (read_phase parse p i c)
  unfolding read_phase
  read_phase-Rests fetching (responded status has_body now random) c h = ground arith
  read_phase-Rests fetching (failed random) c h = ground arith
  read_phase-Rests (reading buffer closed started) (chunk value) c h =
      let k = handle_frames-Kept parse (split_frames (buffer ++ value)).0 c closed in ground arith
  read_phase-Rests (reading buffer closed started) (ended now random) c h = ground arith
  read_phase-Rests (reading buffer closed started) (failed random) c h = ground arith
  read_phase-Rests _ _ c h = ground arith

  step-Rests : (i : Input) (c : Conn) → c.stopped ≡ true → Rests c (step parse i c)
  unfolding step
  step-Rests reconnect_fired c h = ground arith
  step-Rests notify_fired c h = ground arith
  step-Rests (visibility hidden) c h = ground arith
  step-Rests cleanup c h = ground arith
  step-Rests i c h = read_phase-Rests c.phase i c h

  -- Once stopped, by a 401, by a 503 or by the cleanup, the machine never calls `fetch` again.
  pub run-stopped :
      (is : List Input) (c : Conn)
      → c.stopped ≡ true
      → ((run parse is c).stopped ≡ true) × ((run parse is c).connects ≡ c.connects)
  unfolding run
  run-stopped [] c h = (h, refl)
  run-stopped (i ∷ is) c h =
      let r = step-Rests i c h in
      let (s, n) = run-stopped is (step parse i c) r.stopped in (s, n ∙ r.connects)

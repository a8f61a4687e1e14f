-- ===== src/Stream/Connection.antt =====
-- The effect of `useEventStream` in web/src/app/useEventStream.ts as a machine: its variables are
-- the state, and what it waits for (the response, chunks, timers, the page's visibility, the
-- cleanup) are the inputs.
pub mod Invariant
pub mod Chunks
pub mod Outage
mod Tests
use accp.Prelude.{
  ℕ, zero, suc, ◌+◌, ◌*◌, ◌/◌, ◌^◌, min, Bool, true, false, not, ◌&&◌, ◌||◌, List, [], ◌∷◌, ◌++◌,
  Option, none, some, ltb, leb, ◌==◌, if◌then◌else◌,
}
use accp.Text.{Text, codes, text_eq, is_empty}
use accp.Json.{Json}
use accp.Stream.Frames.{SseFrame, split_frames, parse_frame, page_has_items}

pub data ConnectionState : Type 0 where
  live reconnecting polling auth_expired : ConnectionState

-- Where `connect` stands: not running, waiting for the response, or reading its body. The variables
-- of the reading loop are `buffer`, `serverClosed` and `started`.
pub data Phase : Type 0 where
  idle fetching : Phase
  reading : (buffer : Text) (server_closed : Bool) (started : ℕ) → Phase

-- `notifyTimer`: undefined, set and running, or set and cleared by the cleanup.
pub data NotifyTimer : Type 0 where
  unset pending cleared : NotifyTimer

-- `reconnect_timer` is the delay of the running timer. `hidden` is `document.visibilityState`.
-- `connects` and `refreshes` count the calls of `fetch` and of `onEvents`; `status` is what
-- `onStatus` was last called with.
pub record Conn : Type 0 where
  pub stopped : Bool
  pub aborted : Bool
  pub cursor : Text
  pub failures : ℕ
  pub status : ConnectionState
  pub phase : Phase
  pub reconnect_timer : Option ℕ
  pub notify_timer : NotifyTimer
  pub hidden : Bool
  pub connects : ℕ
  pub refreshes : ℕ

-- `Math.random()` has 53 bits: the number given stands for this many parts of 2^53.
pub data Input : Type 0 where
  responded : (status : ℕ) (has_body : Bool) (now random : ℕ) → Input
  failed : (random : ℕ) → Input
  chunk : Text → Input
  ended : (now random : ℕ) → Input
  reconnect_fired notify_fired : Input
  visibility : (hidden : Bool) → Input
  cleanup : Input

abbrev pub max_backoff : ℕ
max_backoff = 30000

abbrev pub polling_threshold : ℕ
polling_threshold = 5

pub ceiling : ℕ → ℕ
ceiling failures = min max_backoff (1000 * 2 ^ min failures 5)

-- `ceiling / 2 + Math.random() * (ceiling / 2)`, in whole milliseconds, as `setTimeout` takes it
pub backoff : (failures random : ℕ) → ℕ
backoff failures random = ceiling failures / 2 + random * (ceiling failures / 2) / 2 ^ 53

pub notify : Conn → Conn
notify c = elim c.notify_timer [ unset ↦ record c { notify_timer = pending } | _ ↦ c ]

pub schedule : ℕ → Conn → Conn
schedule delay c = if c.stopped then c else record c {
  reconnect_timer = some (if c.hidden && ltb delay max_backoff then max_backoff else delay);
}

-- the part of `connect` before it waits for the response
pub connect : Conn → Conn
connect c =
    let waiting = record c { reconnect_timer = none } in
    if c.stopped then waiting else record waiting { phase = fetching; connects = suc c.connects }

-- the `catch` block of `connect`
pub give_up : (random : ℕ) → Conn → Conn
unfolding schedule
give_up random c =
    let over = record c { phase = idle } in
    let failures = suc c.failures in
    if c.stopped || c.aborted
    then over
    else schedule (backoff failures random) (record over {
      failures = failures;
      status = if leb polling_threshold failures then polling else reconnecting;
    })

-- the part of `connect` from the response to the reading loop
pub respond : (status : ℕ) (has_body : Bool) (now random : ℕ) → Conn → Conn
unfolding give_up
respond status has_body now random c =
    if status == 401
    then record c { status = auth_expired; stopped = true; phase = idle }
    else (if status == 503
        then record c { status = polling; stopped = true; phase = idle }
        else (if not (leb 200 status && leb status 299) || not has_body
            then give_up random c
            else record c { failures = 0; status = live; phase = reading [] false now }))

-- the part of `connect` behind the reading loop
pub finish : (server_closed : Bool) (started now random : ℕ) → Conn → Conn
unfolding give_up schedule
finish server_closed started now random c =
    let over = record c { phase = idle } in
    let failures = suc c.failures in
    if server_closed
    then give_up random c
    else (if ltb now (started + 1000)
        then schedule (backoff failures random) (record over {
          failures = failures;
          status = if leb polling_threshold failures then polling else c.status;
        })
        else schedule 0 over)

-- `onVisibility`; its listener is gone after the cleanup.
pub on_visibility : Bool → Conn → Conn
unfolding schedule
on_visibility hidden c =
    let seen = record c { hidden = hidden } in
    if hidden || c.aborted then seen else elim c.reconnect_timer [
      | none ↦ seen
      | some _ ↦ schedule 0 (record seen { reconnect_timer = none })
    ]

-- the function that the effect returns
pub clean_up : Conn → Conn
clean_up c = record c {
  stopped = true;
  aborted = true;
  reconnect_timer = none;
  notify_timer = elim c.notify_timer [ pending ↦ cleared | unset ↦ unset | cleared ↦ cleared ];
}

module _ (parse : Text → Option Json) where
  -- one round of the loop over the frames, on the connection and on `serverClosed`
  pub handle_frame : Text → Conn × Bool → Conn × Bool
  unfolding notify
  handle_frame raw (c, server_closed) =
      let frame = parse_frame raw in
      if text_eq frame.event (codes "accp.closed")
      then (notify (record c { cursor = [] }), true)
      else (if text_eq frame.event (codes "accp.events")
          then (
            let moved = (if is_empty frame.id then c else record c { cursor = frame.id }) in
                (if page_has_items parse frame.content then notify moved else moved),
            server_closed,
          )
          else (c, server_closed))

  pub handle_frames : List Text → Conn × Bool → Conn × Bool
  handle_frames [] s = s
  handle_frames (raw ∷ rest) s = handle_frames rest (handle_frame raw s)

  -- one round of the reading loop
  pub receive : Text → (buffer : Text) (server_closed : Bool) (started : ℕ) → Conn → Conn
  receive value buffer server_closed started c =
      let (frames, rest) = split_frames (buffer ++ value) in
      let (c', closed) = handle_frames frames (c, server_closed) in
      record c' { phase = reading rest closed started }

  -- An input that does not fit the phase cannot come, and changes nothing.
  pub read_phase : Phase → Input → Conn → Conn
  unfolding respond finish give_up receive
  read_phase fetching (responded status has_body now random) c =
      respond status has_body now random c
  read_phase fetching (failed random) c = give_up random c
  read_phase (reading buffer closed started) (chunk value) c = receive value buffer closed started c
  read_phase (reading buffer closed started) (ended now random) c =
      finish closed started now random c
  read_phase (reading buffer closed started) (failed random) c = give_up random c
  read_phase _ _ c = c

  pub step : Input → Conn → Conn
  unfolding read_phase on_visibility clean_up connect
  step reconnect_fired c = elim c.reconnect_timer [ none ↦ c | some _ ↦ connect c ]
  step notify_fired c = elim c.notify_timer [
    | pending ↦ record c { notify_timer = unset; refreshes = suc c.refreshes }
    | _ ↦ c
  ]
  step (visibility hidden) c = on_visibility hidden c
  step cleanup c = clean_up c
  step input c = read_phase c.phase input c

  pub run : List Input → Conn → Conn
  unfolding step
  run [] c = c
  run (i ∷ is) c = run is (step i c)

-- the variables at the start of the effect
abbrev fresh : (hidden : Bool) (status : ConnectionState) → Conn
fresh hidden status = record {
  stopped = false;
  aborted = false;
  cursor = [];
  failures = 0;
  status = status;
  phase = idle;
  reconnect_timer = none;
  notify_timer = unset;
  hidden = hidden;
  connects = 0;
  refreshes = 0;
}

-- The effect begins: without a project or a token it only reports `polling`.
pub start :
    (enabled : Bool) (project_id token : Text) (hidden : Bool) (status : ConnectionState) → Conn
unfolding connect
start enabled project_id token hidden status =
    if not enabled || is_empty project_id || is_empty token
    then fresh hidden polling
    else connect (fresh hidden status)

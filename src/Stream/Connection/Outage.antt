-- ===== src/Stream/Connection/Outage.antt =====
-- A server that cannot be reached: every attempt fails, and each is followed by another.
use accp.Prelude.{
  ℕ, suc, ◌+◌, ◌≡◌, refl, sym, ap, subst, ◌&&◌, ltb, false, List, [], ◌∷◌, Option, some, arith, leb,
  length, if◌then◌else◌,
}
use accp.Text.{Text}
use accp.Json.{Json}
use accp.Stream.Connection.{
  reconnecting, polling, idle, fetching, Conn, Input, failed, reconnect_fired, polling_threshold,
  max_backoff, backoff, connect, give_up, read_phase, step, run,
}

-- One failed attempt for each random number, from the timer to the error.
abbrev pub outage : List ℕ → List Input
outage [] = []
outage (random ∷ rs) = reconnect_fired ∷ failed random ∷ outage rs

-- Idle after `n` failures in a row and `k` calls of `fetch`, with an attempt scheduled.
pub record IsDown (n k : ℕ) (c : Conn) : Type 0 where
  pub waits : c.phase ≡ idle
  pub goes_on : c.stopped ≡ false
  pub mounted : c.aborted ≡ false
  pub delay : ℕ
  pub scheduled : c.reconnect_timer ≡ some delay
  pub failures : c.failures ≡ n
  pub connects : c.connects ≡ k
  pub status : c.status ≡ (if leb polling_threshold n then polling else reconnecting)

delay_of : ℕ → Conn → ℕ
delay_of random c =
    let delay = backoff (suc c.failures) random in
    if c.hidden && ltb delay max_backoff then max_backoff else delay

give_up-IsDown :
    (random n k : ℕ) (c : Conn)
    → c.stopped ≡ false
    → c.aborted ≡ false
    → c.failures ≡ n
    → c.connects ≡ k
    → IsDown (suc n) k (give_up random c)
unfolding give_up delay_of
give_up-IsDown random n k c s a f e = record {
  waits = ground arith;
  goes_on = ground arith;
  mounted = ground arith;
  delay = delay_of random c;
  scheduled = ground arith;
  failures = ground arith;
  connects = ground arith;
  status = ground arith;
}

IsDown-cast : (n n' k k' : ℕ) (c : Conn) → n ≡ n' → k ≡ k' → IsDown n k c → IsDown n' k' c
IsDown-cast n n' k k' c e f d = subst (λ m. IsDown m k' c) e (subst (λ m. IsDown n m c) f d)

module _ (parse : Text → Option Json) where
  step-failed :
      (random : ℕ) (c : Conn) → c.phase ≡ fetching → step parse (failed random) c ≡ give_up random c
  unfolding step read_phase
  step-failed random c p = ap (λ q. read_phase parse q (failed random) c) p

  failed-IsDown :
      (random n k : ℕ) (c : Conn)
      → c.phase ≡ fetching
      → c.stopped ≡ false
      → c.aborted ≡ false
      → c.failures ≡ n
      → c.connects ≡ k
      → IsDown (suc n) k (step parse (failed random) c)
  failed-IsDown random n k c p s a f e =
      subst (IsDown (suc n) k) (sym (step-failed random c p)) (give_up-IsDown random n k c s a f e)

  step-reconnect : (n k : ℕ) (c : Conn) → IsDown n k c → step parse reconnect_fired c ≡ connect c
  unfolding step
  step-reconnect n k c d = rw d.scheduled

  round-IsDown :
      (random n k : ℕ) (c : Conn)
      → IsDown n k c
      → IsDown (suc n) (suc k) (step parse (failed random) (step parse reconnect_fired c))
  unfolding connect
  round-IsDown random n k c d =
      subst (λ u. IsDown (suc n) (suc k) (step parse (failed random) u))
        (sym (step-reconnect n k c d))
        (failed-IsDown random n (suc k) (connect c) (ground arith) (ground arith) (ground arith)
          (ground arith) (ground arith))

  outage-IsDown :
      (rs : List ℕ) (n k : ℕ) (c : Conn)
      → IsDown n k c
      → IsDown (length rs + n) (length rs + k) (run parse (outage rs) c)
  unfolding run
  outage-IsDown [] n k c d = IsDown-cast n (0 + n) k (0 + k) c (omega arith) (omega arith) d
  outage-IsDown (random ∷ rs) n k c d =
      IsDown-cast (length rs + suc n) (suc (length rs) + n) (length rs + suc k)
        (suc (length rs) + k) (run parse (outage (random ∷ rs)) c) (omega arith) (omega arith)
        (outage-IsDown rs (suc n) (suc k) _ (round-IsDown random n k c d))

  -- While the server cannot be reached, every attempt is followed by another, and the console shows
  -- `reconnecting` up to the fourth failure in a row and `polling` from the fifth on.
  pub run-outage-IsDown :
      (random : ℕ) (rs : List ℕ) (c : Conn)
      → c.phase ≡ fetching
      → c.stopped ≡ false
      → c.aborted ≡ false
      → IsDown
          (length rs + suc c.failures)
          (length rs + c.connects)
          (run parse (failed random ∷ outage rs) c)
  unfolding run
  run-outage-IsDown random rs c p s a =
      outage-IsDown rs (suc c.failures) c.connects _
        (failed-IsDown random c.failures c.connects c p s a refl refl)

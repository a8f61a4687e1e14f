-- ===== src/Api/Keys.antt =====
-- The idempotency keys of writes whose result is not known.
use accp.Prelude.{
  ◌≡◌, refl, sym, ap, ◌≢◌, ◌∙◌, Bool, true, false, ◌&&◌, ◌||◌, List, [], ◌∷◌, Option, none, some,
  arith, leb, if◌then◌else◌, All,
}
use accp.Text.{Text, codes, text_eq, text_eq_refl}
use accp.Assoc.{lookup, delete, lookup-insert, lookup-delete}
use accp.Api.{
  Api, Call, is_write, operation, chosen_key, or_else, prepare, Response, rejected, response, is_ok,
  settle, text_or,
}

-- The server may or may not have taken the write: no answer, an error of the server, or, where the
-- caller asks for this, a success whose body cannot be read.
pub uncertain : Call → Response → Bool
uncertain c rejected = true
uncertain c (response status none replayed) = leb 500 status || c.uncertain_result && is_ok status
uncertain c (response status (some _) replayed) = leb 500 status

-- The key that is kept for an operation.
abbrev pub kept : Text → Api → Option Text
kept op api = lookup op api.uncertain_writes

module _ (c : Call) (writes : is_write c ≡ true) where
  kept-prepare :
      (uuid : Text) (api : Api)
      → kept (operation c) (prepare c uuid api).1 ≡ some (chosen_key api c uuid)
  unfolding prepare
  kept-prepare uuid api = rw writes (
      lookup-insert (operation c) (operation c) _ api.uncertain_writes
      ∙ rw (text_eq_refl (operation c)))

  key-prepare :
      (uuid : Text) (api : Api)
      → (prepare c uuid api).0.idempotency_key ≡ some (chosen_key api c uuid)
  unfolding prepare
  key-prepare uuid api = rw writes

  -- Behind the answer the key is kept exactly if the result is uncertain.
  kept-settle :
      (key : Text) (r : Response) (api : Api)
      → kept (operation c) api ≡ some key
      → kept (operation c) (settle c (some key) r api).1
        ≡ (if uncertain c r then some key else none)
  unfolding settle uncertain
  kept-settle key rejected api h = h
  kept-settle key (response status none replayed) api h = ground (
    arith,
    writes,
    text_eq_refl (operation c),
    lookup-delete (operation c) (operation c) api.uncertain_writes,
    lookup-insert (operation c) (operation c) key api.uncertain_writes,
    lookup-insert (operation c) (operation c) key (delete (operation c) api.uncertain_writes),
  )
  kept-settle key (response status (some v) replayed) api h = ground (
    arith,
    writes,
    text_eq_refl (operation c),
    lookup-delete (operation c) (operation c) api.uncertain_writes,
  )

-- The halves of the calls that share the client, in any order.
pub data Event : Type 0 where
  begin : Call → (uuid : Text) → Event
  finish : Call → (key : Option Text) → Response → Event

abbrev pub event_call : Event → Call
event_call (begin c uuid) = c
event_call (finish c key r) = c

pub step : Event → Api → Api
unfolding prepare settle
step (begin c uuid) api = (prepare c uuid api).1
step (finish c key r) api = (settle c key r api).1

pub run : List Event → Api → Api
unfolding step
run [] api = api
run (e ∷ es) api = run es (step e api)

module _ (op : Text) where
  -- An event of a read, or of a write with another operation.
  abbrev pub IsOther : Event → Type 0
  IsOther e = is_write (event_call e) && text_eq (operation (event_call e)) op ≡ false

  kept-prepare_ne :
      (c : Call) (uuid : Text) (api : Api)
      → is_write c && text_eq (operation c) op ≡ false
      → kept op (prepare c uuid api).1 ≡ kept op api
  unfolding prepare
  kept-prepare_ne c uuid api h =
      ground (arith, lookup-insert (operation c) op (chosen_key api c uuid) api.uncertain_writes)

  kept-settle_ne :
      (c : Call) (key : Option Text) (r : Response) (api : Api)
      → is_write c && text_eq (operation c) op ≡ false
      → kept op (settle c key r api).1 ≡ kept op api
  unfolding settle
  kept-settle_ne c key rejected api h = refl
  kept-settle_ne c key (response status (some v) replayed) api h =
      ground (arith, lookup-delete (operation c) op api.uncertain_writes)
  kept-settle_ne c key (response status none replayed) api h = ground (
    arith,
    lookup-delete (operation c) op api.uncertain_writes,
    lookup-insert (operation c) op (text_or key (codes "undefined")) api.uncertain_writes,
    lookup-insert (operation c) op (text_or key (codes "undefined"))
        (delete (operation c) api.uncertain_writes),
  )

  kept-run_ne : (es : List Event) (api : Api) → All IsOther es → kept op (run es api) ≡ kept op api
  unfolding run step
  kept-run_ne [] api h = refl
  kept-run_ne (begin c uuid ∷ es) api (h, hs) = kept-run_ne es _ hs ∙ kept-prepare_ne c uuid api h
  kept-run_ne (finish c key r ∷ es) api (h, hs) = kept-run_ne es _ hs ∙ kept-settle_ne c key r api h

or_else-ne : (o : Option Text) (d : Text) → d ≢ [] → or_else o d ≢ []
or_else-ne none d h = h
or_else-ne (some []) d h = h
or_else-ne (some (x ∷ s)) d h = cc

or_else_of_ne : (s d : Text) → s ≢ [] → or_else (some s) d ≡ s
or_else_of_ne [] d h = absurd (h refl)
or_else_of_ne (x ∷ s) d h = refl

module _ (c : Call) (writes : is_write c ≡ true) (automatic : c.idempotency_key ≡ none)
    (uuid uuid' : Text) (made : uuid ≢ []) (r : Response) (es : List Event) (api : Api)
    (others : All (IsOther (operation c)) es) where
  -- The client behind one call of `c`, and whatever else went on before the next.
  abbrev pub meanwhile : Api
  meanwhile =
      let (request, sent) = prepare c uuid api in run es (settle c request.idempotency_key r sent).1

  kept-meanwhile :
      kept (operation c) meanwhile ≡ (if uncertain c r then some (chosen_key api c uuid) else none)
  kept-meanwhile =
      kept-run_ne (operation c) es _ others
      ∙ ap (λ k. kept (operation c) (settle c k r (prepare c uuid api).1).1)
          (key-prepare c writes uuid api)
      ∙ kept-settle c writes (chosen_key api c uuid) r (prepare c uuid api).1
          (kept-prepare c writes uuid api)

  chosen_key-eq : (u : Text) (a : Api) → chosen_key a c u ≡ or_else (kept (operation c) a) u
  chosen_key-eq u a = ap (λ k. or_else k (or_else (kept (operation c) a) u)) automatic

  chosen_key-ne : chosen_key api c uuid ≢ []
  chosen_key-ne = or_else-ne c.idempotency_key _ (or_else-ne (kept (operation c) api) uuid made)

  chosen_key-meanwhile :
      chosen_key meanwhile c uuid' ≡ (if uncertain c r then chosen_key api c uuid else uuid')
  chosen_key-meanwhile =
      chosen_key-eq uuid' meanwhile
      ∙ ap (λ k. or_else k uuid') kept-meanwhile
      ∙ by_case (uncertain c r)
    where
      by_case :
          (b : Bool)
          → or_else (if b then some (chosen_key api c uuid) else none) uuid'
            ≡ (if b then chosen_key api c uuid else uuid')
      by_case true = or_else_of_ne (chosen_key api c uuid) uuid' chosen_key-ne
      by_case false = refl

  -- Repeated after an uncertain result, a write carries the key that it carried before, so that the
  -- server can tell that it is the same; after a certain one it carries a new key. Other calls in
  -- between make no difference. This is for a write whose caller sets no key, and a key made for it
  -- that is not empty.
  pub key-retry :
      (prepare c uuid' meanwhile).0.idempotency_key
      ≡ (if uncertain c r then (prepare c uuid api).0.idempotency_key else some uuid')
  key-retry =
      key-prepare c writes uuid' meanwhile ∙ ap some chosen_key-meanwhile ∙ by_case (uncertain c r)
    where
      by_case :
          (b : Bool)
          → some (if b then chosen_key api c uuid else uuid')
            ≡ (if b then (prepare c uuid api).0.idempotency_key else some uuid')
      by_case true = sym (key-prepare c writes uuid api)
      by_case false = refl

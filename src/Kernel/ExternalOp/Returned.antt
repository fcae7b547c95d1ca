-- ===== src/Kernel/ExternalOp/Returned.antt =====
-- A call of WithExternalOp that returns leaves its result on record.
use the_foundry.Prelude.{
  ◌≡◌, inl, inr, refl, sym, ap, ◌∙◌, subst, true, false, eq_refl, String, Option, none, some, List,
  ◌∷◌, arith, Bool-cases, Option-cases,
}
use the_foundry.Ledger.{
  has_run, Op, Intent, Answer, done, error, get_by_key, reserve, update, awaits, execute,
  mark_executed,
}
use the_foundry.Ledger.Grows.{get_by_key-update, execute-IsLater}
use the_foundry.Ledger.Live.{IsLive, is_failed, found_live, reserve-IsLive}
use the_foundry.Kernel.ExternalOp.{
  World, never, Outcome, returned, decoded, stored, record_result, after_fn, on_op,
  after_reservation, with_external_op,
}
use the_foundry.Kernel.ExternalOp.Settled.{IsSettled, reserve-done}

module _ {T : Type 0} (encode : T → Option String) (decode : String → Option T) where
  -- What the column gives back of a result that was put in it is the result.
  abbrev pub IsRoundTrip : Type 0
  IsRoundTrip = (x : T) (receipt : String) → encode x ≡ some receipt → decode receipt ≡ some x

  abbrev pub IsRecorded : String → T → List Op → Type 0
  IsRecorded key result t =
      (receipt : String) × IsSettled key receipt t × (decode receipt ≡ some result)

  marked_done :
      (key receipt : String) (op : Op) (t : List Op)
      → get_by_key key t ≡ some op
      → awaits op.id op ≡ true
      → IsSettled key receipt (update (awaits op.id) (execute receipt) t)
  marked_done key receipt op t found waits = record {
    op = execute receipt op;
    found =
        get_by_key-update (awaits op.id) (execute receipt) (execute-IsLater op.id receipt) key t op
          found
        ∙ (rw waits refl);
    ran = refl;
    kept = refl;
  }

  record_returned :
      (result x : T) (r : Answer Op × List Op) (calls : List String) (w' : World)
      → record_result encode decode result r calls ≡ (returned x, w')
      → (result ≡ x) × (w'.ledger ≡ r.1)
  unfolding record_result
  record_returned result x (done op, t) calls w' e = (cc, cc)
  record_returned result x (error f, t) calls w' e = (cc, cc)

  waiting :
      (op : Op) → is_failed op.state ≡ false → has_run op.state ≡ false → awaits op.id op ≡ true
  waiting op live fresh = ground (arith, eq_refl op.id, live, fresh)

  halves :
      {a b : Outcome T} {v w : World}
      → ◌≡◌ {A = Outcome T × World} (a, v) (b, w)
      → (a ≡ b) × (v ≡ w)
  halves e = (cc, cc)

  recorded :
      (key receipt : String) (result x : T) (op : Op) (t : List Op) (calls : List String)
      (w' : World)
      → IsRoundTrip
      → encode result ≡ some receipt
      → get_by_key key t ≡ some op
      → awaits op.id op ≡ true
      → record_result encode decode result (mark_executed op.id (some receipt) t) calls
        ≡ (returned x, w')
      → IsRecorded key x w'.ledger
  unfolding mark_executed
  recorded key receipt result x op t calls w' law encoded found waits e =
      let s = marked_done key receipt op t found waits in
      let (same, table) =
        record_returned result x (mark_executed op.id (some receipt) t) calls w' e in
      (
        receipt,
        subst (IsSettled key receipt) (sym table) s,
        law result receipt encoded ∙ ap some same,
      )

  not_recorded :
      (result x : T) (op : Op) (t : List Op) (calls : List String) (w' : World)
      → record_result encode decode result (mark_executed op.id none t) calls ≡ (returned x, w')
      → ⊥
  unfolding mark_executed record_result
  not_recorded result x op t calls w' e = cc

  fresh_returned :
      (key : String) (fn : Option T) (op : Op) (w w' : World) (x : T)
      → IsRoundTrip
      → get_by_key key w.ledger ≡ some op
      → awaits op.id op ≡ true
      → after_fn encode decode never fn op (record w { calls = op.idempotency_key ∷ w.calls })
        ≡ (returned x, w')
      → IsRecorded key x w'.ledger
  unfolding after_fn
  fresh_returned key none op w w' x law found waits e = cc
  fresh_returned key (some result) op w w' x law found waits e =
      elim (Option-cases (encode result)) [
        | inl bad ↦ absurd (not_recorded result x op w.ledger _ w' (rw bad at e))
        | inr (receipt, encoded) ↦
            recorded key receipt result x op w.ledger (op.idempotency_key ∷ w.calls) w' law encoded
              found waits (rw encoded at e)
      ]

  stored-returned :
      (o : Option String) (x : T)
      → stored encode decode o ≡ returned x
      → (receipt : String) × (o ≡ some receipt) × (decode receipt ≡ some x)
  unfolding stored decoded
  stored-returned none x e = cc
  stored-returned (some receipt) x e = elim (Option-cases (decode receipt)) [
    | inl bad ↦ cc (rw bad at e)
    | inr (y, good) ↦ (receipt, refl, ground (arith, good, e))
  ]

  on_op_returned :
      (key : String) (fn : Option T) (op : Op) (w w' : World) (x : T)
      → IsRoundTrip
      → get_by_key key w.ledger ≡ some op
      → is_failed op.state ≡ false
      → on_op encode decode never fn op w ≡ (returned x, w')
      → IsRecorded key x w'.ledger
  unfolding on_op after_fn
  on_op_returned key fn op w w' x law found live e = elim (Bool-cases (has_run op.state)) [
    | inl ran ↦
        let (answer, world) = halves (rw ran at e) in
        let (receipt, kept, good) = stored-returned op.receipt x answer in
        (
          receipt,
          subst (IsSettled key receipt) (ap (λ (v : World). v.ledger) world)
              (record { op = op; found = found; ran = ran; kept = kept }),
          good,
        )
    | inr fresh ↦ fresh_returned key fn op w w' x law found (waiting op live fresh) (rw fresh at e)
  ]

  over :
      (intent : Intent) (fn : Option T) (x : T) (w' : World) (r : Answer Op × List Op)
      (calls : List String)
      → IsRoundTrip
      → IsLive r.1
      → ((op : Op) (t' : List Op)
          → r ≡ (done op, t')
          → get_by_key intent.idempotency_key t' ≡ some op)
      → after_reservation encode decode never fn r calls ≡ (returned x, w')
      → IsRecorded intent.idempotency_key x w'.ledger
  unfolding after_reservation
  over intent fn x w' (error f, t) calls law live found e = cc
  over intent fn x w' (done op, t) calls law live found e =
      let here = found op t refl in
      on_op_returned intent.idempotency_key fn op (record { ledger = t; calls = calls }) w' x law
        here (found_live intent.idempotency_key t op live here) e

  pub returned-IsRecorded :
      (intent : Intent) (request draw : Option String) (fn : Option T) (w w' : World) (x : T)
      → IsRoundTrip
      → IsLive w.ledger
      → with_external_op encode decode never intent request draw fn w ≡ (returned x, w')
      → IsRecorded intent.idempotency_key x w'.ledger
  unfolding with_external_op
  returned-IsRecorded intent request draw fn w w' x law live e =
      over intent fn x w' (reserve intent request draw w.ledger) w.calls law
        (reserve-IsLive intent request draw w.ledger live)
        (λ op t' q. (reserve-done intent request draw w.ledger t' op q).0) e

  -- A call of a key returns a result, in the world that it leaves: in one step, where no other call overlaps
  -- it or the operation has run, or by MarkExecuted after `fn`, as its last step, while the operation of
  -- the key has not run.
  pub data Returns (intent : Intent) (v : World) (x : T) (w : World) : Type 0 where
    at_once :
        (request draw : Option String) (fn : Option T)
        → with_external_op encode decode never intent request draw fn v ≡ (returned x, w)
        → Returns intent v x w
    overlapped :
        (op : Op)
        → get_by_key intent.idempotency_key v.ledger ≡ some op
        → has_run op.state ≡ false
        → after_fn encode decode never (some x) op v ≡ (returned x, w)
        → Returns intent v x w

  marked_last :
      (key : String) (op : Op) (v w : World) (x : T)
      → IsRoundTrip
      → get_by_key key v.ledger ≡ some op
      → awaits op.id op ≡ true
      → after_fn encode decode never (some x) op v ≡ (returned x, w)
      → IsRecorded key x w.ledger
  unfolding after_fn
  marked_last key op v w x law found waits e = elim (Option-cases (encode x)) [
    | inl bad ↦ absurd (not_recorded x x op v.ledger _ w (rw bad at e))
    | inr (receipt, encoded) ↦
        recorded key receipt x x op v.ledger v.calls w law encoded found waits (rw encoded at e)
  ]

  pub Returns-IsRecorded :
      (intent : Intent) (v w : World) (x : T)
      → IsRoundTrip
      → IsLive v.ledger
      → Returns intent v x w
      → IsRecorded intent.idempotency_key x w.ledger
  Returns-IsRecorded intent v w x law live (at_once request draw fn e) =
      returned-IsRecorded intent request draw fn v w x law live e
  Returns-IsRecorded intent v w x law live (overlapped op found fresh e) =
      let key = intent.idempotency_key in
      marked_last key op v w x law found (waiting op (found_live key v.ledger op live found) fresh)
        e

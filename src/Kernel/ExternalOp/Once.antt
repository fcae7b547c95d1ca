-- ===== src/Kernel/ExternalOp/Once.antt =====
-- Once an operation has run, its side effect is not repeated, and its result is what every later call
-- returns.
use the_foundry.Prelude.{
  ℕ, ◌+◌, ◌≡◌, ◌≢◌, inl, inr, refl, sym, ap, ◌∙◌, subst, Bool, true, false, eq_iff, String, Option,
  some, List, [], ◌∷◌, arith,
}
use the_foundry.Ledger.{done, has_run, Op, Intent, get_by_key, insert_op, reserve}
use the_foundry.Ledger.Grows.{mark_executed-Grows, run_once-Grows}
use the_foundry.Ledger.Live.{IsLive, mark_executed-IsLive, run_once-IsLive}
use the_foundry.Kernel.ExternalOp.{
  World, empty, Crash, never, returned, decoded, stored, on_op, after_reservation, with_external_op,
  Event, calling, calling_fn, marking, reconciling, step, run, times, overlapping, all_overlapping,
}
use the_foundry.Kernel.ExternalOp.Settled.{IsSettled, IsSettled-Grows, get_by_key-key, reserve-done}
use the_foundry.Kernel.ExternalOp.Returned.{IsRoundTrip, Returns, Returns-IsRecorded}
use the_foundry.Kernel.ExternalOp.Calls.{with_external_op-Keeps, after_reservation-calls}

module _ {T : Type 0} (encode : T → Option String) (decode : String → Option T) where
  -- A call for a key that has run returns what is stored, and changes nothing.
  settled_call :
      (intent : Intent) (request id receipt : String) (fn : Option T) (w : World)
      → IsSettled intent.idempotency_key receipt w.ledger
      → with_external_op encode decode never intent (some request) (some id) fn w
        ≡ (stored encode decode (some receipt), w)
  unfolding with_external_op reserve insert_op after_reservation on_op
  settled_call intent request id receipt fn w s = rw (s.found, s.ran, s.kept) refl

  -- Reserve answers with the operation that has run.
  settled_reserve :
      (intent : Intent) (request id receipt : String) (w : World)
      → IsSettled intent.idempotency_key receipt w.ledger
      → (op : Op) × (reserve intent (some request) (some id) w.ledger ≡ (done op, w.ledger))
        × (has_run op.state ≡ true)
  unfolding reserve insert_op
  settled_reserve intent request id receipt w s = (s.op, rw s.found refl, s.ran)

  other_key :
      (op : Op) (key : String) (calls : List String)
      → op.idempotency_key ≢ key
      → times key (op.idempotency_key ∷ calls) ≡ times key calls
  unfolding times
  other_key op key calls apart = ground (arith, eq_iff op.idempotency_key key, apart)

  settled_times :
      (key receipt : String) (crash : Crash) (intent : Intent) (request draw : Option String)
      (fn : Option T) (w : World)
      → IsSettled key receipt w.ledger
      → times key (with_external_op encode decode crash intent request draw fn w).1.calls
        ≡ times key w.calls
  unfolding with_external_op
  settled_times key receipt crash intent request draw fn w s =
      let r = reserve intent request draw w.ledger in
      elim (after_reservation-calls encode decode crash fn r w.calls) [
        | inl same ↦ ap (times key) same
        | inr (op, answer, fresh, calls) ↦
            let (found, kept) = reserve-done intent request draw w.ledger r.1 op answer in
            let its_key = get_by_key-key intent.idempotency_key r.1 op found in
            ap (times key) calls
            ∙ other_key op key w.calls λ same.
              let op_is : op ≡ s.op =
                kept s.op (ap (λ k. get_by_key k w.ledger) (sym its_key ∙ same) ∙ s.found) in
              absurd (clash (sym fresh ∙ ap (λ (x : Op). has_run x.state) op_is ∙ s.ran))
      ]
    where
      clash : ◌≡◌ {A = Bool} false true → ⊥
      clash e = cc

module _ {T V : Type 0} (encode : T → Option String) (decode : String → Option T)
    (parse : String → Option V) (equal : V → V → Bool) where
  abbrev runs : List (Event T) → World → World
  runs = run encode decode parse equal

  step-IsLive :
      (e : Event T) (w : World)
      → IsLive w.ledger
      → IsLive (step encode decode parse equal e w).ledger
  unfolding step
  step-IsLive (calling crash intent request draw fn) w live =
      (with_external_op-Keeps encode decode crash intent request draw fn w).1 live
  step-IsLive (calling_fn op) w live = live
  step-IsLive (marking op result) w live = mark_executed-IsLive op.id (encode result) w.ledger live
  step-IsLive (reconciling probers limit) w live =
      run_once-IsLive parse equal probers limit w.ledger live

  pub run-IsLive : (es : List (Event T)) (w : World) → IsLive w.ledger → IsLive (runs es w).ledger
  unfolding run
  run-IsLive [] w live = live
  run-IsLive (e ∷ es) w live = run-IsLive es _ (step-IsLive e w live)

  none_more : {a b : ℕ} → a ≡ b → a ≡ 0 + b
  none_more e = omega (arith, e)

  step-IsSettled :
      (key receipt : String) (e : Event T) (w : World)
      → IsSettled key receipt w.ledger
      → IsSettled key receipt (step encode decode parse equal e w).ledger
        × (times key (step encode decode parse equal e w).calls
            ≡ overlapping key e + times key w.calls)
  unfolding step overlapping times
  step-IsSettled key receipt (calling crash intent request draw fn) w s = (
    IsSettled-Grows key receipt w.ledger _
        (with_external_op-Keeps encode decode crash intent request draw fn w).0 s,
    none_more (settled_times encode decode key receipt crash intent request draw fn w s),
  )
  step-IsSettled key receipt (calling_fn op) w s = (s, ground arith)
  step-IsSettled key receipt (marking op result) w s = (
    IsSettled-Grows key receipt w.ledger _ (mark_executed-Grows op.id (encode result) w.ledger) s,
    none_more refl,
  )
  step-IsSettled key receipt (reconciling probers limit) w s = (
    IsSettled-Grows key receipt w.ledger _ (run_once-Grows parse equal probers limit w.ledger) s,
    none_more refl,
  )

  run-IsSettled :
      (key receipt : String) (es : List (Event T)) (w : World)
      → IsSettled key receipt w.ledger
      → IsSettled key receipt (runs es w).ledger
        × (times key (runs es w).calls ≡ all_overlapping key es + times key w.calls)
  unfolding run all_overlapping
  run-IsSettled key receipt [] w s = (s, none_more refl)
  run-IsSettled key receipt (e ∷ es) w s =
      let (settled, same) = step-IsSettled key receipt e w s in
      let (end, all_same) = run-IsSettled key receipt es _ settled in
      (end, omega (arith, same, all_same))

  -- Where a stored result reads back as itself: after any run of calls, of any keys, overlapping and
  -- crashing anywhere, and of reconciler passes, from an empty ledger, let a call return. Then through any
  -- further run `fn` is called for its key only by the calls that are already past their Reserve, once
  -- for each such event; a whole call of the key that can encode its request and draws an id returns
  -- the same result, whatever its own `fn` would answer, and changes nothing; and no later Reserve
  -- of the key leads to `fn`, since it answers with an operation that has run.
  pub with_external_op-once :
      (earlier later : List (Event T)) (intent : Intent) (x : T) (w : World) (again : Intent)
      (request id : String) (fn : Option T)
      → IsRoundTrip encode decode
      → Returns encode decode intent (runs earlier empty) x w
      → again.idempotency_key ≡ intent.idempotency_key
      → (times intent.idempotency_key (runs later w).calls
          ≡ all_overlapping intent.idempotency_key later + times intent.idempotency_key w.calls)
        × (with_external_op encode decode never again (some request) (some id) fn (runs later w)
            ≡ (returned x, runs later w))
        × ((op : Op) × (reserve again (some request) (some id) (runs later w).ledger
              ≡ (done op, (runs later w).ledger))
            × (has_run op.state ≡ true))
  unfolding stored decoded
  with_external_op-once earlier later intent x w again request id fn law e k =
      let live = run-IsLive earlier empty refl in
      let (receipt, settled, good) =
        Returns-IsRecorded encode decode intent (runs earlier empty) w x law live e in
      let (end, same) = run-IsSettled intent.idempotency_key receipt later w settled in
      let end_again : IsSettled again.idempotency_key receipt (runs later w).ledger =
        subst (λ key. IsSettled key receipt (runs later w).ledger) (sym k) end in
      (
        same,
        settled_call encode decode again request id receipt fn (runs later w) end_again
            ∙ rw good refl,
        settled_reserve encode decode again request id receipt (runs later w) end_again,
      )

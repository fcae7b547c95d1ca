-- ===== src/Kernel/ExternalOp/Calls.antt =====
-- What a call of WithExternalOp does to the ledger and to the log of calls.
use the_foundry.Prelude.{
  ◌≡◌, ◌⊎◌, inl, inr, refl, false, String, Option, none, some, List, ◌∷◌, Bool-cases,
}
use the_foundry.Ledger.{has_run, Op, Intent, Answer, done, error, reserve, mark_executed}
use the_foundry.Ledger.Grows.{Grows, Grows-refl, Grows-trans, reserve-Grows, mark_executed-Grows}
use the_foundry.Ledger.Live.{IsLive, reserve-IsLive, mark_executed-IsLive}
use the_foundry.Kernel.ExternalOp.{
  World, Crash, dies_after_reserve, dies_after_call, record_result, after_fn, on_op,
  after_reservation, with_external_op,
}

-- The ledger only grows, and no operation becomes failed.
abbrev pub Keeps : List Op → List Op → Type 0
Keeps a b = Grows a b × (IsLive a → IsLive b)

Keeps-refl : (a : List Op) → Keeps a a
Keeps-refl a = (Grows-refl a, λ l. l)

module _ {T : Type 0} (encode : T → Option String) (decode : String → Option T) where
  record_result-ledger :
      (result : T) (r : Answer Op × List Op) (calls : List String)
      → (record_result encode decode result r calls).1 ≡ record { ledger = r.1; calls = calls }
  unfolding record_result
  record_result-ledger result (done op, t) calls = refl
  record_result-ledger result (error e, t) calls = refl

  after_fn-Keeps :
      (crash : Crash) (fn : Option T) (op : Op) (w : World)
      → let w' = (after_fn encode decode crash fn op w).1 in
        Keeps w.ledger w'.ledger × (w'.calls ≡ w.calls)
  unfolding after_fn
  after_fn-Keeps crash none op w = (Keeps-refl w.ledger, refl)
  after_fn-Keeps crash (some result) op w = elim (Bool-cases (dies_after_call crash)) [
    | inl dies ↦ rw dies (Keeps-refl w.ledger, refl)
    | inr lives ↦
        rw
          (
            lives,
            record_result-ledger result (mark_executed op.id (encode result) w.ledger) w.calls,
          )
          (
            (
              mark_executed-Grows op.id (encode result) w.ledger,
              mark_executed-IsLive op.id (encode result) w.ledger,
            ),
            refl,
          )
  ]

  -- `fn` is not called, or the operation has not run.
  abbrev pub CallsAtMost : Op → World → World → Type 0
  CallsAtMost op w w' =
      (w'.calls ≡ w.calls)
      ⊎ ((has_run op.state ≡ false) × (w'.calls ≡ op.idempotency_key ∷ w.calls))

  on_op-Keeps :
      (crash : Crash) (fn : Option T) (op : Op) (w : World)
      → let w' = (on_op encode decode crash fn op w).1 in
        Keeps w.ledger w'.ledger × CallsAtMost op w w'
  unfolding on_op
  on_op-Keeps crash fn op w = elim (Bool-cases (dies_after_reserve crash)) [
    | inl dies ↦ rw dies (Keeps-refl w.ledger, inl refl)
    | inr lives ↦ elim (Bool-cases (has_run op.state)) [
      | inl ran ↦ rw (lives, ran) (Keeps-refl w.ledger, inl refl)
      | inr fresh ↦
          let (keeps, calls) =
            after_fn-Keeps crash fn op (record w { calls = op.idempotency_key ∷ w.calls }) in
          rw (lives, fresh) (keeps, inr (refl, calls))
    ]
  ]

  after_reservation-Keeps :
      (crash : Crash) (fn : Option T) (r : Answer Op × List Op) (calls : List String)
      → Keeps r.1 (after_reservation encode decode crash fn r calls).1.ledger
  unfolding after_reservation
  after_reservation-Keeps crash fn (error e, t) calls = Keeps-refl t
  after_reservation-Keeps crash fn (done op, t) calls =
      (on_op-Keeps crash fn op (record { ledger = t; calls = calls })).0

  pub with_external_op-Keeps :
      (crash : Crash) (intent : Intent) (request draw : Option String) (fn : Option T) (w : World)
      → Keeps w.ledger (with_external_op encode decode crash intent request draw fn w).1.ledger
  unfolding with_external_op
  with_external_op-Keeps crash intent request draw fn w =
      let r = reserve intent request draw w.ledger in
      let (grows, live) = after_reservation-Keeps crash fn r w.calls in
      let end = (after_reservation encode decode crash fn r w.calls).1.ledger in
      (
        Grows-trans w.ledger r.1 end (reserve-Grows intent request draw w.ledger) grows,
        λ l. live (reserve-IsLive intent request draw w.ledger l),
      )

  -- A call that reaches no operation calls nothing; else it is as above.
  pub after_reservation-calls :
      (crash : Crash) (fn : Option T) (r : Answer Op × List Op) (calls : List String)
      → let w' = (after_reservation encode decode crash fn r calls).1 in
        (w'.calls ≡ calls)
        ⊎ ((op : Op) × (r ≡ (done op, r.1))
            × (has_run op.state ≡ false)
            × (w'.calls ≡ op.idempotency_key ∷ calls))
  unfolding after_reservation
  after_reservation-calls crash fn (error e, t) calls = inl refl
  after_reservation-calls crash fn (done op, t) calls =
      elim (on_op-Keeps crash fn op (record { ledger = t; calls = calls })).1 [
        | inl same ↦ inl same
        | inr (fresh, calls) ↦ inr (op, refl, fresh, calls)
      ]

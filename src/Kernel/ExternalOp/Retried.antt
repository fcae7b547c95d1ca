-- ===== src/Kernel/ExternalOp/Retried.antt =====
-- A call that died, or whose `fn` failed, can be made again.
use the_foundry.Prelude.{
  ◌≡◌, inl, inr, refl, Bool, true, false, ◌==◌, eq_refl, String, Option, some, List, [], ◌∷◌, arith,
  Bool-cases,
}
use the_foundry.Ledger.{
  has_run, Op, Intent, get_by_key, insert_op, reserve, updated, awaits, execute, mark_executed,
  marked,
}
use the_foundry.Ledger.Live.{is_failed, found_live}
use the_foundry.Kernel.ExternalOp.{
  empty, never, returned, record_result, after_fn, on_op, after_reservation, with_external_op,
  Event, run,
}
use the_foundry.Kernel.ExternalOp.Once.{run-IsLive}

updated_found :
    (here : Op → Bool) (change : Op → Op) (key : String) (t : List Op) (op : Op)
    → get_by_key key t ≡ some op
    → here op ≡ true
    → (x : Op) × (updated here change t ≡ some x)
unfolding get_by_key updated
updated_found here change key [] op found e = cc
updated_found here change key (y ∷ t) op found e = elim (Bool-cases (here y)) [
  | inl this ↦ (change y, rw this refl)
  | inr not_this ↦ elim (Bool-cases (y.idempotency_key == key)) [
    | inl same ↦ ground (arith, same, found, e, not_this)
    | inr other ↦ rw not_this (updated_found here change key t op (rw other at found) e)
  ]
]

waiting : (op : Op) → is_failed op.state ≡ false → has_run op.state ≡ false → awaits op.id op ≡ true
waiting op live fresh = ground (arith, eq_refl op.id, live, fresh)

module _ {T V : Type 0} (encode : T → Option String) (decode : String → Option T)
    (parse : String → Option V) (equal : V → V → Bool) where
  -- After any run from an empty ledger, crashes included: if the key has an operation that has not run,
  -- a call of the key that does not crash, whose request is encoded and id drawn, and whose `fn`
  -- answers a result that can be encoded, returns that result.
  pub with_external_op-retry :
      (earlier : List (Event T)) (intent : Intent) (request id : String) (x : T) (receipt : String)
      (op : Op)
      → let w = run encode decode parse equal earlier empty in
        get_by_key intent.idempotency_key w.ledger ≡ some op
        → has_run op.state ≡ false
        → encode x ≡ some receipt
        → (with_external_op encode decode never intent (some request) (some id) (some x) w).0
          ≡ returned x
  unfolding with_external_op reserve insert_op after_reservation on_op after_fn mark_executed marked
      record_result
  with_external_op-retry earlier intent request id x receipt op found fresh encoded =
      let w = run encode decode parse equal earlier empty in
      let live = run-IsLive encode decode parse equal earlier empty refl in
      let waits = waiting op (found_live intent.idempotency_key w.ledger op live found) fresh in
      let (y, changes) =
        updated_found (awaits op.id) (execute receipt) intent.idempotency_key w.ledger op found
          waits in
      rw (found, fresh, encoded, changes) refl

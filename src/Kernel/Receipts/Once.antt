-- ===== src/Kernel/Receipts/Once.antt =====
-- A call that has returned is not made again.
use the_foundry.Prelude.{
  ◌≡◌, refl, inl, inr, sym, ap, ◌∙◌, false, ◌==◌, eq_iff, String, Option, none, some, List, [], ◌∷◌,
  Bool-cases, Option-cases,
}
use the_foundry.Kernel.Receipts.{
  ReceiptStore, Fault, no_fault, fails_to_read, fails_to_write, returned, decoded, write, call_fn,
  on_receipt, with_receipt, run,
}

clash : {a : Type 0} {raw : String} → some raw ≡ none → a
clash e = cc

module _ {S T : Type 0} (encode : T → Option String) (decode : String → Option T)
    (rs : ReceiptStore S) where
  -- No call loses or changes a receipt.
  write_keeps :
      (fault : Fault) (key : String) (x : T) (o : Option String) (s : S) (k raw : String)
      → rs.get key s ≡ none
      → rs.get k s ≡ some raw
      → rs.get k (write encode decode rs fault key x o s).store ≡ some raw
  unfolding write
  write_keeps fault key x none s k raw absent found = found
  write_keeps fault key x (some payload) s k raw absent found =
      elim (Bool-cases (fails_to_write fault)) [
        | inl fails ↦ rw fails found
        | inr works ↦ elim (Bool-cases (key == k)) [
          | inl same ↦
              clash (sym found ∙ ap (λ z. rs.get z s) (sym ((eq_iff key k).0 same)) ∙ absent)
          | inr other ↦ rw works (rs.get-put key payload s absent k ∙ (rw other found))
        ]
      ]

  call_fn_keeps :
      (fault : Fault) (key : String) (fn : Option T) (s : S) (k raw : String)
      → rs.get key s ≡ none
      → rs.get k s ≡ some raw
      → rs.get k (call_fn encode decode rs fault key fn s).store ≡ some raw
  unfolding call_fn
  call_fn_keeps fault key none s k raw absent found = found
  call_fn_keeps fault key (some x) s k raw absent found =
      write_keeps fault key x (encode x) s k raw absent found

  keeps :
      (fault : Fault) (key : String) (fn : Option T) (s : S) (k raw : String)
      → rs.get k s ≡ some raw
      → rs.get k (with_receipt encode decode rs fault key fn s).store ≡ some raw
  unfolding with_receipt on_receipt
  keeps fault key fn s k raw found = elim (Bool-cases (fails_to_read fault)) [
    | inl fails ↦ rw fails found
    | inr works ↦ elim (Option-cases (rs.get key s)) [
      | inl absent ↦ rw (works, absent) (call_fn_keeps fault key fn s k raw absent found)
      | inr (old, there) ↦ rw (works, there) found
    ]
  ]

  run_keeps :
      (calls : List (Fault × String × Option T)) (s : S) (k raw : String)
      → rs.get k s ≡ some raw
      → rs.get k (run encode decode rs calls s).1 ≡ some raw
  unfolding run
  run_keeps [] s k raw found = found
  run_keeps ((fault, key, fn) ∷ calls) s k raw found =
      run_keeps calls _ k raw (keeps fault key fn s k raw found)

  abbrev pub IsRoundTrip : Type 0
  IsRoundTrip = (y : T) (raw : String) → encode y ≡ some raw → decode raw ≡ some y

  -- The key has a receipt that reads as the result.
  abbrev pub IsReceived : String → T → S → Type 0
  IsReceived key x s = (raw : String) × (rs.get key s ≡ some raw) × (decode raw ≡ some x)

  write_leaves :
      (fault : Fault) (key : String) (y x : T) (s : S)
      → IsRoundTrip
      → rs.get key s ≡ none
      → (write encode decode rs fault key y (encode y) s).outcome ≡ returned x
      → IsReceived key x (write encode decode rs fault key y (encode y) s).store
  unfolding write
  write_leaves fault key y x s law absent e = elim (Option-cases (encode y)) [
    | inl bad ↦ cc (rw bad at e)
    | inr (raw, good) ↦ elim (Bool-cases (fails_to_write fault)) [
      | inl fails ↦ cc (rw (good, fails) at e)
      | inr works ↦
          let same : y ≡ x = inner y x (rw (good, works) at e) in
          rw (good, works)
            (
              raw,
              rs.get-put key raw s absent key ∙ (rw ((eq_iff key key).1 refl) refl),
              law y raw good ∙ ap some same,
            )
    ]
  ]
    where
      inner : (y x : T) → returned y ≡ returned x → y ≡ x
      inner y x e = cc

  call_fn_leaves :
      (fault : Fault) (key : String) (fn : Option T) (x : T) (s : S)
      → IsRoundTrip
      → rs.get key s ≡ none
      → (call_fn encode decode rs fault key fn s).outcome ≡ returned x
      → IsReceived key x (call_fn encode decode rs fault key fn s).store
  unfolding call_fn
  call_fn_leaves fault key none x s law absent e = cc
  call_fn_leaves fault key (some y) x s law absent e = write_leaves fault key y x s law absent e

  decoded-returned : (o : Option T) (x : T) → decoded encode decode rs o ≡ returned x → o ≡ some x
  unfolding decoded
  decoded-returned none x e = cc
  decoded-returned (some y) x e = cc

  leaves :
      (fault : Fault) (key : String) (fn : Option T) (s : S) (x : T)
      → IsRoundTrip
      → (with_receipt encode decode rs fault key fn s).outcome ≡ returned x
      → IsReceived key x (with_receipt encode decode rs fault key fn s).store
  unfolding with_receipt on_receipt
  leaves fault key fn s x law e = elim (Bool-cases (fails_to_read fault)) [
    | inl fails ↦ cc (rw fails at e)
    | inr works ↦ elim (Option-cases (rs.get key s)) [
      | inl absent ↦
          rw (works, absent) (call_fn_leaves fault key fn x s law absent (rw (works, absent) at e))
      | inr (raw, there) ↦
          rw (works, there) (raw, there, decoded-returned (decode raw) x (rw (works, there) at e))
    ]
  ]

  -- Where a stored result reads back as itself: if a call returned a result, then after every run of
  -- calls, faults included, a call of the key without a fault returns that result, does not call its `fn` and
  -- leaves the store as it is.
  pub with_receipt-once :
      (fault : Fault) (key : String) (fn : Option T) (s : S) (x : T)
      (calls : List (Fault × String × Option T)) (fn' : Option T)
      → IsRoundTrip
      → (with_receipt encode decode rs fault key fn s).outcome ≡ returned x
      → let later =
          (run encode decode rs calls (with_receipt encode decode rs fault key fn s).store).1 in
        with_receipt encode decode rs no_fault key fn' later
        ≡ record { outcome = returned x; called = false; store = later }
  unfolding with_receipt on_receipt decoded
  with_receipt-once fault key fn s x calls fn' law e =
      let (raw, found, good) = leaves fault key fn s x law e in
      let kept =
        run_keeps calls (with_receipt encode decode rs fault key fn s).store key raw found in
      rw (kept, good) refl

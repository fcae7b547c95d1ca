-- ===== src/Kernel/Receipts/Refines.antt =====
-- Every store behaves as the function of the key that it holds.
use the_foundry.Prelude.{
  ◌≡◌, refl, inl, inr, ap, ◌∙◌, ◌==◌, String, Option, none, some, List, [], ◌∷◌, Bool-cases,
  Option-cases, if◌then◌else◌,
}
use the_foundry.Kernel.Receipts.{
  ReceiptStore, Fault, fails_to_read, fails_to_write, Result, write, call_fn, on_receipt,
  with_receipt, run,
}
use the_foundry.Kernel.Receipts.Stores.{Receipts, ideal_store}

module _ {S T : Type 0} (encode : T → Option String) (decode : String → Option T)
    (rs : ReceiptStore S) where
  -- The function holds what the store holds.
  abbrev pub IsViewed : S → Receipts → Type 0
  IsViewed s f = (key : String) → rs.get key s ≡ f key

  abbrev pub Agree : Result S T → Result Receipts T → Type 0
  Agree a b = (a.outcome ≡ b.outcome) × (a.called ≡ b.called) × IsViewed a.store b.store

  write-Agree :
      (fault : Fault) (key : String) (x : T) (o : Option String) (s : S) (f : Receipts)
      → rs.get key s ≡ none
      → IsViewed s f
      → Agree
          (write encode decode rs fault key x o s)
          (write encode decode ideal_store fault key x o f)
  unfolding write
  write-Agree fault key x none s f absent v = (refl, refl, v)
  write-Agree fault key x (some payload) s f absent v = elim (Bool-cases (fails_to_write fault)) [
    | inl fails ↦ rw fails (refl, refl, v)
    | inr works ↦ rw works (
      refl,
      refl,
      λ other.
          rs.get-put key payload s absent other
          ∙ ap (λ o. if key == other then some payload else o) (v other),
    )
  ]

  call_fn-Agree :
      (fault : Fault) (key : String) (fn : Option T) (s : S) (f : Receipts)
      → rs.get key s ≡ none
      → IsViewed s f
      → Agree
          (call_fn encode decode rs fault key fn s)
          (call_fn encode decode ideal_store fault key fn f)
  unfolding call_fn
  call_fn-Agree fault key none s f absent v = (refl, refl, v)
  call_fn-Agree fault key (some x) s f absent v = write-Agree fault key x (encode x) s f absent v

  with_receipt-Agree :
      (fault : Fault) (key : String) (fn : Option T) (s : S) (f : Receipts)
      → IsViewed s f
      → Agree
          (with_receipt encode decode rs fault key fn s)
          (with_receipt encode decode ideal_store fault key fn f)
  unfolding with_receipt on_receipt
  with_receipt-Agree fault key fn s f v = elim (Bool-cases (fails_to_read fault)) [
    | inl fails ↦ rw fails (refl, refl, v)
    | inr works ↦ elim (Option-cases (f key)) [
      | inl absent ↦ rw (works, v key, absent) (call_fn-Agree fault key fn s f (v key ∙ absent) v)
      | inr (raw, found) ↦ rw (works, v key, found) (refl, refl, v)
    ]
  ]

  -- From a store that holds what a function holds, every run of calls, faults included, answers and
  -- calls `fn` as the run on the function does, and ends in a store that holds what that run ends in.
  pub run_refines :
      (calls : List (Fault × String × Option T)) (s : S) (f : Receipts)
      → IsViewed s f
      → ((run encode decode rs calls s).0 ≡ (run encode decode ideal_store calls f).0)
        × IsViewed (run encode decode rs calls s).1 (run encode decode ideal_store calls f).1
  unfolding run
  run_refines [] s f v = (refl, v)
  run_refines ((fault, key, fn) ∷ calls) s f v =
      let (outcome, called, after) = with_receipt-Agree fault key fn s f v in
      let a = with_receipt encode decode rs fault key fn s in
      let b = with_receipt encode decode ideal_store fault key fn f in
      let (answers, end) = run_refines calls a.store b.store after in
      (λ i. (outcome i, called i) ∷ answers i, end)

-- ===== src/Ledger/Passes.antt =====
-- What every reconciliation does to the table, a pass of RunOnce does.
use the_foundry.Prelude.{
  ℕ, ◌≡◌, refl, sym, subst, Bool, String, Option, none, some, List, [], ◌∷◌, lookup,
}
use the_foundry.Ledger.{
  Op, Answer, done, error, Pass, passed, cannot_observe, store_failed, observed_by, list_executed,
  counted, carry_on, reconcile, reconcile_one, reconcile_all, run_once,
}

counted-table : (a : Answer Bool) (count : ℕ) (t : List Op) → (counted a count t).2 ≡ t
unfolding counted
counted-table (error e) count t = refl
counted-table (done diverges) count t = refl

-- A reflexive and transitive relation of tables that holds across every reconciliation.
module _ {ℓ} {V : Type ℓ} (parse : String → Option V) (equal : V → V → Bool)
    (R : List Op → List Op → Type 0) (same : (t : List Op) → R t t)
    (chain : (a b c : List Op) → R a b → R b c → R a c)
    (step : (id observed : String) (t : List Op)
      → R t (reconcile parse equal id observed t).1) where
  carry_on-pass :
      (t : List Op) (r : Pass × ℕ × List Op) (rest : ℕ → List Op → Pass × ℕ × List Op)
      → R t r.2
      → ((count : ℕ) (t' : List Op) → R t' (rest count t').2)
      → R t (carry_on r rest).2
  unfolding carry_on
  carry_on-pass t (passed, count, t') rest g h = chain t t' (rest count t').2 g (h count t')
  carry_on-pass t (cannot_observe, count, t') rest g h = g
  carry_on-pass t (store_failed e, count, t') rest g h = g

  reconcile_one-pass :
      (o : Option (Option String)) (op : Op) (count : ℕ) (t : List Op)
      → R t (reconcile_one parse equal o op count t).2
  unfolding reconcile_one
  reconcile_one-pass none op count t = same t
  reconcile_one-pass (some none) op count t = same t
  reconcile_one-pass (some (some observed)) op count t =
      subst (R t) (sym (counted-table _ count _)) (step op.id observed t)

  module _ (probers : List (String × (Op → Option String))) where
    reconcile_all-pass :
        (ops : List Op) (count : ℕ) (t : List Op)
        → R t (reconcile_all parse equal probers ops count t).2
    unfolding reconcile_all
    reconcile_all-pass [] count t = same t
    reconcile_all-pass (op ∷ ops) count t =
        let o = observed_by (lookup op.kind probers) op in
        carry_on-pass t (reconcile_one parse equal o op count t)
          (reconcile_all parse equal probers ops) (reconcile_one-pass o op count t)
          (reconcile_all-pass ops)

    pub run_once-pass : (limit : ℕ) (t : List Op) → R t (run_once parse equal probers limit t).2
    unfolding run_once
    run_once-pass limit t = reconcile_all-pass (list_executed limit t) 0 t

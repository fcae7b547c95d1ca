-- ===== src/Ledger/Live.antt =====
-- Nothing writes the state `failed`.
use the_foundry.Prelude.{
  ℕ, ◌≡◌, inl, inr, refl, Bool, true, false, ◌==◌, String, Option, none, some, List, [], ◌∷◌, arith,
  any, any-append, Bool-cases,
}
use the_foundry.Ledger.{
  OpState, reserved, executed, reconciled, failed, Op, Intent, get_by_key, new_op, insert_op,
  reserve, update, awaits, execute, mark_executed, to_reconcile, settle, reconcile, run_once,
}
use the_foundry.Ledger.Passes.{run_once-pass}

abbrev pub is_failed : OpState → Bool
is_failed failed = true
is_failed reserved = false
is_failed executed = false
is_failed reconciled = false

abbrev pub IsLive : List Op → Type 0
IsLive t = any (λ op. is_failed op.state) t ≡ false

pub found_live :
    (key : String) (t : List Op) (op : Op)
    → IsLive t
    → get_by_key key t ≡ some op
    → is_failed op.state ≡ false
unfolding get_by_key
found_live key [] op live e = cc
found_live key (x ∷ t) op live e = elim (Bool-cases (x.idempotency_key == key)) [
  | inl here ↦ ground (arith, live, here, e)
  | inr there ↦ found_live key t op (ground (arith, live)) (rw there at e)
]

pub insert_op-IsLive :
    (existing : Option Op) (op : Op) (t : List Op)
    → is_failed op.state ≡ false
    → IsLive t
    → IsLive (insert_op existing op t).1
unfolding insert_op
insert_op-IsLive (some x) op t new live = live
insert_op-IsLive none op t new live = elim (Bool-cases (any (λ row. row.id == op.id) t)) [
  | inl taken ↦ rw taken live
  | inr fresh ↦
      rw fresh (ground (arith, any-append (λ r. is_failed r.state) t (op ∷ []), live, new))
]

pub reserve-IsLive :
    (intent : Intent) (request draw : Option String) (t : List Op)
    → IsLive t
    → IsLive (reserve intent request draw t).1
unfolding reserve new_op
reserve-IsLive intent none draw t live = live
reserve-IsLive intent (some request) none t live = live
reserve-IsLive intent (some request) (some id) t live =
    insert_op-IsLive _ (new_op intent id request) t refl live

update-IsLive :
    (here : Op → Bool) (change : Op → Op) (t : List Op)
    → ((op : Op) → is_failed (change op).state ≡ false)
    → IsLive t
    → IsLive (update here change t)
unfolding update
update-IsLive here change [] new live = refl
update-IsLive here change (x ∷ t) new live =
    let rest = update-IsLive here change t new (ground (arith, live)) in
    elim (Bool-cases (here x)) [
      | inl e ↦ rw (e, new x) rest
      | inr n ↦ ground (arith, n, live, rest)
    ]

pub mark_executed-IsLive :
    (id : String) (receipt : Option String) (t : List Op)
    → IsLive t
    → IsLive (mark_executed id receipt t).1
unfolding mark_executed
mark_executed-IsLive id none t live = live
mark_executed-IsLive id (some receipt) t live =
    update-IsLive (awaits id) (execute receipt) t (λ op. refl) live

module _ {ℓ} {V : Type ℓ} (parse : String → Option V) (equal : V → V → Bool) where
  pub run_once-IsLive :
      (probers : List (String × (Op → Option String))) (limit : ℕ) (t : List Op)
      → IsLive t
      → IsLive (run_once parse equal probers limit t).2
  unfolding reconcile
  run_once-IsLive probers limit t =
      run_once-pass parse equal (λ a b. IsLive a → IsLive b) (λ a l. l) (λ a b c p q l. q (p l))
        (λ id observed a l. update-IsLive (to_reconcile id) settle a (λ op. refl) l) probers limit t

-- ===== src/Ledger/Grows.antt =====
-- The ledger only grows: no operation is lost, none goes back, and what has run keeps its receipt.
use the_foundry.Prelude.{
  ℕ, ◌≡◌, inl, inr, refl, ap, ◌∙◌, Bool, true, false, ◌==◌, String, Option, none, some, List, [],
  ◌∷◌, ◌++◌, arith, any, if◌then◌else◌, Bool-cases,
}
use mathlib.Core.Option
use the_foundry.Ledger.Passes.{run_once-pass}
use the_foundry.Ledger.{
  executed, reconciled, has_run, Op, Intent, get_by_key, insert_op, reserve, update, awaits,
  execute, mark_executed, to_reconcile, settle, reconcile, run_once,
}

-- Of one row, before and after.
pub record IsLater (op op' : Op) : Type 0 where
  pub same_row : op' ≡ record op { state = op'.state; receipt = op'.receipt }
  pub ran : has_run op.state ≡ true → has_run op'.state ≡ true
  pub settled : op.state ≡ reconciled → op'.state ≡ reconciled
  pub kept : has_run op.state ≡ true → op'.receipt ≡ op.receipt

pub IsLater-refl : (op : Op) → IsLater op op
IsLater-refl op = record { same_row = refl; ran = λ e. e; settled = λ e. e; kept = λ e. refl }

pub IsLater-trans : (a b c : Op) → IsLater a b → IsLater b c → IsLater a c
IsLater-trans a b c p q = record {
  same_row =
      q.same_row ∙ ap {A = Op} (λ r. record r { state = c.state; receipt = c.receipt }) p.same_row;
  ran = λ e. q.ran (p.ran e);
  settled = λ e. q.settled (p.settled e);
  kept = λ e. q.kept (p.ran e) ∙ p.kept e;
}

-- Every row of the first table, by its key, is a later row of the second.
abbrev pub Grows : List Op → List Op → Type 0
Grows before after =
    (key : String) (op : Op)
    → get_by_key key before ≡ some op
    → (op' : Op) × (get_by_key key after ≡ some op') × IsLater op op'

pub Grows-refl : (t : List Op) → Grows t t
Grows-refl t key op found = (op, found, IsLater-refl op)

pub Grows-trans : (a b c : List Op) → Grows a b → Grows b c → Grows a c
Grows-trans a b c p q key op found =
    let (x, found_x, later_x) = p key op found in
    let (y, found_y, later_y) = q key x found_x in
    (y, found_y, IsLater-trans op x y later_x later_y)

get_by_key-append :
    (key : String) (t more : List Op) (op : Op)
    → get_by_key key t ≡ some op
    → get_by_key key (t ++ more) ≡ some op
unfolding get_by_key
get_by_key-append key [] more op e = cc
get_by_key-append key (x ∷ t) more op e = elim (Bool-cases (x.idempotency_key == key)) [
  | inl here ↦ ground (arith, here, e)
  | inr there ↦ rw there (get_by_key-append key t more op (rw there at e))
]

pub insert_op-Grows :
    (existing : Option Op) (op : Op) (t : List Op) → Grows t (insert_op existing op t).1
unfolding insert_op
insert_op-Grows (some x) op t = Grows-refl t
insert_op-Grows none op t = elim (Bool-cases (any (λ row. row.id == op.id) t)) [
  | inl taken ↦ rw taken (Grows-refl t)
  | inr fresh ↦
      rw fresh λ key old found. (old, get_by_key-append key t (op ∷ []) old found, IsLater-refl old)
]

pub reserve-Grows :
    (intent : Intent) (request draw : Option String) (t : List Op)
    → Grows t (reserve intent request draw t).1
unfolding reserve
reserve-Grows intent none draw t = Grows-refl t
reserve-Grows intent (some request) none t = Grows-refl t
reserve-Grows intent (some request) (some id) t = insert_op-Grows _ _ t

-- An UPDATE that makes each row it changes a later one.
module _ (here : Op → Bool) (change : Op → Op)
    (later : (op : Op) → here op ≡ true → IsLater op (change op)) where
  abbrev pub changed : Op → Op
  changed op = if here op then change op else op

  pub changed-IsLater : (op : Op) → IsLater op (changed op)
  changed-IsLater op = elim (Bool-cases (here op)) [
    | inl e ↦ rw e (later op e)
    | inr n ↦ rw n (IsLater-refl op)
  ]

  same_key : (op : Op) → (changed op).idempotency_key ≡ op.idempotency_key
  same_key op = ap (λ r. r.idempotency_key) (changed-IsLater op).same_row

  pub get_by_key-update :
      (key : String) (t : List Op) (op : Op)
      → get_by_key key t ≡ some op
      → get_by_key key (update here change t) ≡ some (changed op)
  unfolding get_by_key update
  get_by_key-update key [] op e = cc
  get_by_key-update key (x ∷ t) op e = elim (Bool-cases (x.idempotency_key == key)) [
    | inl found ↦
        let k : ((changed x).idempotency_key == key) ≡ true =
          ap (λ z. z == key) (same_key x) ∙ found in
        rw k (ap (λ o. Option.map changed o) (rw found at e))
    | inr there ↦
        let k : ((changed x).idempotency_key == key) ≡ false =
          ap (λ z. z == key) (same_key x) ∙ there in
        rw k (get_by_key-update key t op (rw there at e))
  ]

  pub update-Grows : (t : List Op) → Grows t (update here change t)
  update-Grows t key op found = (changed op, get_by_key-update key t op found, changed-IsLater op)

pub execute-IsLater :
    (id receipt : String) (op : Op) → awaits id op ≡ true → IsLater op (execute receipt op)
execute-IsLater id receipt op e = record {
  same_row = refl;
  ran = λ r. refl;
  settled = λ r. not_both op e r;
  kept = λ r. absurd (not_run op e r);
}
  where
    not_both : (op : Op) → awaits id op ≡ true → op.state ≡ reconciled → executed ≡ reconciled
    not_both op e r = ground (arith, r, e)

    not_run : (op : Op) → awaits id op ≡ true → has_run op.state ≡ true → ⊥
    not_run op e r = ground (arith, r, e)

settle-IsLater : (id : String) (op : Op) → to_reconcile id op ≡ true → IsLater op (settle op)
settle-IsLater id op e = record {
  same_row = refl;
  ran = λ r. refl;
  settled = λ r. refl;
  kept = λ r. refl;
}

pub mark_executed-Grows :
    (id : String) (receipt : Option String) (t : List Op) → Grows t (mark_executed id receipt t).1
unfolding mark_executed
mark_executed-Grows id none t = Grows-refl t
mark_executed-Grows id (some receipt) t =
    update-Grows (awaits id) (execute receipt) (execute-IsLater id receipt) t

module _ {ℓ} {V : Type ℓ} (parse : String → Option V) (equal : V → V → Bool) where
  pub reconcile-Grows :
      (id observed : String) (t : List Op) → Grows t (reconcile parse equal id observed t).1
  unfolding reconcile
  reconcile-Grows id observed t = update-Grows (to_reconcile id) settle (settle-IsLater id) t

  pub run_once-Grows :
      (probers : List (String × (Op → Option String))) (limit : ℕ) (t : List Op)
      → Grows t (run_once parse equal probers limit t).2
  run_once-Grows probers limit t =
      run_once-pass parse equal Grows Grows-refl Grows-trans reconcile-Grows probers limit t

-- ===== src/Kernel/ExternalOp/Settled.antt =====
-- What a call of WithExternalOp leaves in the ledger and in the log of calls.
use the_foundry.Prelude.{
  ◌≡◌, inl, inr, refl, sym, ap, ◌∙◌, subst, true, ◌==◌, eq_iff, String, Option, none, some, List,
  [], ◌∷◌, ◌++◌, arith, any, Bool-cases,
}
use mathlib.Core.Option.{some-injective}
use the_foundry.Ledger.{has_run, Op, Intent, Answer, done, get_by_key, new_op, insert_op, reserve}
use the_foundry.Ledger.Grows.{Grows}

-- The operation of this key has run, with this receipt.
pub record IsSettled (key receipt : String) (t : List Op) : Type 0 where
  pub op : Op
  pub found : get_by_key key t ≡ some op
  pub ran : has_run op.state ≡ true
  pub kept : op.receipt ≡ some receipt

pub IsSettled-Grows :
    (key receipt : String) (t t' : List Op)
    → Grows t t'
    → IsSettled key receipt t
    → IsSettled key receipt t'
IsSettled-Grows key receipt t t' g s =
    let (op', found, later) = g key s.op s.found in
    record { op = op'; found = found; ran = later.ran s.ran; kept = later.kept s.ran ∙ s.kept }

pub get_by_key-key :
    (key : String) (t : List Op) (op : Op) → get_by_key key t ≡ some op → op.idempotency_key ≡ key
unfolding get_by_key
get_by_key-key key [] op e = cc
get_by_key-key key (x ∷ t) op e = elim (Bool-cases (x.idempotency_key == key)) [
  | inl here ↦
      ap (λ r. r.idempotency_key) (sym (some-injective x op (rw here at e))) ∙ (eq_iff _ _).0 here
  | inr there ↦ get_by_key-key key t op (rw there at e)
]

get_by_key-new :
    (op : Op) (t : List Op)
    → get_by_key op.idempotency_key t ≡ none
    → get_by_key op.idempotency_key (t ++ op ∷ []) ≡ some op
unfolding get_by_key
get_by_key-new op [] e = ground (arith, eq_iff op.idempotency_key op.idempotency_key)
get_by_key-new op (x ∷ t) e = elim (Bool-cases (x.idempotency_key == op.idempotency_key)) [
  | inl here ↦ cc (rw here at e)
  | inr there ↦ rw there (get_by_key-new op t (rw there at e))
]

insert_op-done :
    (new op : Op) (existing : Option Op) (t t' : List Op)
    → get_by_key new.idempotency_key t ≡ existing
    → insert_op existing new t ≡ (done op, t')
    → (get_by_key new.idempotency_key t' ≡ some op) × ((x : Op) → existing ≡ some x → op ≡ x)
unfolding insert_op
insert_op-done new op (some x) t t' found e =
    let same : x ≡ op = cc in
    let table : t ≡ t' = cc in
    (
      ap (get_by_key new.idempotency_key) (sym table) ∙ found ∙ ap some same,
      λ y f. sym same ∙ some-injective x y f,
    )
insert_op-done new op none t t' found e = elim (Bool-cases (any (λ row. row.id == new.id) t)) [
  | inl taken ↦ cc (rw taken at e)
  | inr fresh ↦
      let (same, table) = appended new op t t' (rw fresh at e) in
      (
        subst (λ (z : List Op × Op). get_by_key new.idempotency_key z.0 ≡ some z.1)
            (λ i. (table i, same i)) (get_by_key-new new t found),
        λ y f. cc,
      )
]
  where
    appended :
        (new op : Op) (t t' : List Op)
        → ◌≡◌ {A = Answer Op × List Op} (done new, t ++ new ∷ []) (done op, t')
        → (new ≡ op) × (t ++ new ∷ [] ≡ t')
    appended new op t t' e = (cc, cc)

-- What Reserve returns is the row of the key, the one that was there if there was one.
pub reserve-done :
    (intent : Intent) (request draw : Option String) (t t' : List Op) (op : Op)
    → reserve intent request draw t ≡ (done op, t')
    → (get_by_key intent.idempotency_key t' ≡ some op)
      × ((x : Op) → get_by_key intent.idempotency_key t ≡ some x → op ≡ x)
unfolding reserve new_op
reserve-done intent none draw t t' op e = cc
reserve-done intent (some request) none t t' op e = cc
reserve-done intent (some request) (some id) t t' op e =
    insert_op-done (new_op intent id request) op (get_by_key intent.idempotency_key t) t t' refl e

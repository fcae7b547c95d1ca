-- ===== src/Kernel/Integrator/Fifo.antt =====
-- The queue hands out the items of a branch in the order in which they came.
use the_foundry.Prelude.{
  ◌≡◌, ◌≢◌, inl, inr, refl, sym, ap, ◌∙◌, Bool, true, false, ◌==◌, eq_iff, String, Option, none,
  some, List, [], ◌∷◌, ◌++◌, lookup_or, insert, lookup-insert_same, lookup-insert_other,
  String-cases, ne→==-false, if◌then◌else◌,
}
use mathlib.Core.List.{append_assoc, append-nil}
use the_foundry.Kernel.Integrator.{Item, Queue, enqueue, dequeue_over, dequeue}

pub data Operation : Type 0 where
  putting : Item → Operation
  taking : String → Operation

-- A run: what was taken of one branch, and the queue after.
unfoldable pub taken : Option Item → List Item → List Item
taken none later = later
taken (some item) later = item ∷ later

unfoldable pub run : String → List Operation → Queue → List Item × Queue
unfolding taken
run branch [] q = ([], q)
run branch (putting item ∷ ops) q = run branch ops (enqueue item q)
run branch (taking b ∷ ops) q =
    let (answer, after) = dequeue b q in
    let (later, end) = run branch ops after in
    (if b == branch then taken answer later else later, end)

-- What was put in for a branch.
unfoldable pub arrivals : String → List Operation → List Item
arrivals branch [] = []
arrivals branch (putting item ∷ ops) =
    let rest = arrivals branch ops in if item.branch == branch then item ∷ rest else rest
arrivals branch (taking b ∷ ops) = arrivals branch ops

abbrev pub held : String → Queue → List Item
held branch q = lookup_or [] branch q

held-insert_same : (b : String) (items : List Item) (q : Queue) → held b (insert b items q) ≡ items
unfolding lookup_or
held-insert_same b items q = rw (lookup-insert_same b items q) refl

held-insert_other :
    (b k : String) (items : List Item) (q : Queue) → b ≢ k → held b (insert k items q) ≡ held b q
unfolding lookup_or
held-insert_other b k items q apart = rw (lookup-insert_other b k items q apart) refl

held_put :
    (branch key : String) (item : Item) (q : Queue)
    → held branch (insert key (held key q ++ item ∷ []) q)
      ≡ (if key == branch then held branch q ++ item ∷ [] else held branch q)
held_put branch key item q = elim (String-cases key branch) [
  | inl same ↦
      rw (same, (eq_iff branch branch).1 refl)
        (held-insert_same branch (held branch q ++ item ∷ []) q)
  | inr apart ↦
      rw (ne→==-false key branch apart) (held-insert_other branch key _ q λ e. apart (sym e))
]

held-enqueue :
    (branch : String) (item : Item) (q : Queue)
    → held branch (enqueue item q)
      ≡ (if item.branch == branch then held branch q ++ item ∷ [] else held branch q)
unfolding enqueue
held-enqueue branch item q = held_put branch item.branch item q

held-dequeue_over :
    (branch : String) (items : List Item) (q : Queue)
    → held branch q ≡ items
    → items ≡ taken (dequeue_over items branch q).0 (held branch (dequeue_over items branch q).1)
unfolding dequeue_over taken
held-dequeue_over branch [] q e = sym e
held-dequeue_over branch (x ∷ items) q e =
    ap {B = List Item} (λ r. x ∷ r) (sym (held-insert_same branch items q))

held-dequeue_other :
    (branch b : String) (items : List Item) (q : Queue)
    → branch ≢ b
    → held branch (dequeue_over items b q).1 ≡ held branch q
unfolding dequeue_over
held-dequeue_other branch b [] q apart = refl
held-dequeue_other branch b (x ∷ items) q apart = held-insert_other branch b items q apart

taken-append : (o : Option Item) (xs ys : List Item) → taken o xs ++ ys ≡ taken o (xs ++ ys)
unfolding taken
taken-append none xs ys = refl
taken-append (some x) xs ys = refl

arrived :
    (b : Bool) (item : Item) (xs ys : List Item)
    → (if b then xs ++ item ∷ [] else xs) ++ ys ≡ xs ++ (if b then item ∷ ys else ys)
arrived true item xs ys = append_assoc xs (item ∷ []) ys
arrived false item xs ys = refl

-- Through any run, what is taken of a branch and then what its queue holds at the end are what its queue
-- held at the start and then what was put in for it, in order; other branches do not matter.
pub run-arrivals :
    (branch : String) (ops : List Operation) (q : Queue)
    → (run branch ops q).0 ++ held branch (run branch ops q).1
      ≡ held branch q ++ arrivals branch ops
unfolding run arrivals dequeue
run-arrivals branch [] q = sym (append-nil (held branch q))
run-arrivals branch (putting item ∷ ops) q =
    run-arrivals branch ops (enqueue item q)
    ∙ ap (λ z. z ++ arrivals branch ops) (held-enqueue branch item q)
    ∙ arrived (item.branch == branch) item (held branch q) (arrivals branch ops)
run-arrivals branch (taking b ∷ ops) q = elim (String-cases b branch) [
  | inl same ↦
      let o = (dequeue branch q).0 in
      let after = (dequeue branch q).1 in
      let later = (run branch ops after).0 in
      let end = held branch (run branch ops after).1 in
      let arrived = arrivals branch ops in
      rw (same, (eq_iff branch branch).1 refl)
        (taken-append o later end
          ∙ ap (taken o) (run-arrivals branch ops after)
          ∙ sym (taken-append o (held branch after) arrived)
          ∙ ap (λ z. z ++ arrived) (sym (held-dequeue_over branch (held branch q) q refl)))
  | inr apart ↦ rw (ne→==-false b branch apart) (
      run-arrivals branch ops (dequeue b q).1
      ∙ ap (λ z. z ++ arrivals branch ops)
          (held-dequeue_other branch b (held b q) q λ e. apart (sym e)))
]

-- ===== src/Kernel/Receipts/Stores.antt =====
-- The stores of internal/kernel/idempotency.go, and receipts as a function of their key.
use the_foundry.Prelude.{
  ◌≡◌, refl, inl, inr, sym, ◌==◌, eq_iff, String, Option, none, some, List, lookup, insert,
  lookup-insert_same, lookup-insert_other, String-cases, ne→==-false, if◌then◌else◌,
}
use the_foundry.Kernel.Receipts.{ReceiptStore}

abbrev pub Rows : Type 0
Rows = List (String × String)

lookup-insert :
    (key payload : String) (rows : Rows) (other : String)
    → lookup other (insert key payload rows)
      ≡ (if key == other then some payload else lookup other rows)
lookup-insert key payload rows other = elim (String-cases other key) [
  | inl same ↦ rw (same, (eq_iff key key).1 refl) (lookup-insert_same key payload rows)
  | inr apart ↦
      rw (ne→==-false key other λ s. apart (sym s))
        (lookup-insert_other other key payload rows apart)
]

-- MemReceiptStore.Put: the map's entry, overwritten.
unfoldable pub mem_put : String → String → Rows → Rows
mem_put key payload rows = insert key payload rows

pub mem-get-put :
    (key payload : String) (rows : Rows)
    → lookup key rows ≡ none
    → (other : String)
    → lookup other (mem_put key payload rows)
      ≡ (if key == other then some payload else lookup other rows)
unfolding mem_put
mem-get-put key payload rows absent other = lookup-insert key payload rows other

abbrev pub mem_store : ReceiptStore Rows
mem_store = record { get = lookup; put = mem_put; get-put = mem-get-put }

-- PGReceiptStore.Put: INSERT ... ON CONFLICT (key) DO NOTHING.
unfoldable pub pg_put_over : Option String → String → String → Rows → Rows
pg_put_over (some old) key payload rows = rows
pg_put_over none key payload rows = insert key payload rows

unfoldable pub pg_put : String → String → Rows → Rows
unfolding pg_put_over
pg_put key payload rows = pg_put_over (lookup key rows) key payload rows

pub pg-get-put :
    (key payload : String) (rows : Rows)
    → lookup key rows ≡ none
    → (other : String)
    → lookup other (pg_put key payload rows)
      ≡ (if key == other then some payload else lookup other rows)
unfolding pg_put
pg-get-put key payload rows absent other = rw absent (lookup-insert key payload rows other)

abbrev pub pg_store : ReceiptStore Rows
pg_store = record { get = lookup; put = pg_put; get-put = pg-get-put }

-- What a store promises: a function of the key.
abbrev pub Receipts : Type 0
Receipts = String → Option String

abbrev pub set_receipt : String → String → Receipts → Receipts
set_receipt key payload f other = if key == other then some payload else f other

abbrev pub ideal_store : ReceiptStore Receipts
ideal_store = record {
  get = λ key f. f key;
  put = set_receipt;
  get-put = λ key payload f absent other. refl;
}

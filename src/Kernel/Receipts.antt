-- ===== src/Kernel/Receipts.antt =====
-- internal/kernel/idempotency.go: withReceipt over a ReceiptStore. The store is an interface of the source: a
-- record of its operations with what withReceipt relies on; MemReceiptStore and the statements of
-- PGReceiptStore fill it. Parameters: what `fn` answers, `none` for an error, json.Marshal and
-- json.Unmarshal of a result, and the errors of the store, which are those of its connection. Calls run one
-- after another: of calls of one key that overlap, each may run its `fn`, which is not modelled.
pub mod Stores
pub mod Refines
pub mod Once
use the_foundry.Prelude.{
  ◌≡◌, Bool, true, false, ◌==◌, Option, none, some, String, List, [], ◌∷◌, if◌then◌else◌,
}

pub record ReceiptStore (S : Type 0) : Type 0 where
  pub get : String → S → Option String
  pub put : String → String → S → S
  -- Writing a key that is absent makes it present, and touches no other.
  pub get-put :
      (key payload : String) (s : S)
      → get key s ≡ none
      → (other : String)
      → get other (put key payload s) ≡ (if key == other then some payload else get other s)

pub data Fault : Type 0 where
  no_fault read_fails write_fails : Fault

abbrev pub fails_to_read : Fault → Bool
fails_to_read read_fails = true
fails_to_read no_fault = false
fails_to_read write_fails = false

abbrev pub fails_to_write : Fault → Bool
fails_to_write write_fails = true
fails_to_write no_fault = false
fails_to_write read_fails = false

pub data Outcome (T : Type 0) : Type 0 where
  returned : T → Outcome T
  read_error decode_error call_failed encode_error write_error : Outcome T

-- The outcome, whether `fn` was called, and the store.
pub record Result (S T : Type 0) : Type 0 where
  pub outcome : Outcome T
  pub called : Bool
  pub store : S

module _ {S T : Type 0} (encode : T → Option String) (decode : String → Option T)
    (rs : ReceiptStore S) where
  unfoldable pub decoded : Option T → Outcome T
  decoded none = decode_error
  decoded (some x) = returned x

  unfoldable pub write : Fault → String → T → Option String → S → Result S T
  write fault key x none s = record { outcome = encode_error; called = true; store = s }
  write fault key x (some payload) s =
      if fails_to_write fault
      then record { outcome = write_error; called = true; store = s }
      else record { outcome = returned x; called = true; store = rs.put key payload s }

  unfoldable pub call_fn : Fault → String → Option T → S → Result S T
  unfolding write
  call_fn fault key none s = record { outcome = call_failed; called = true; store = s }
  call_fn fault key (some x) s = write fault key x (encode x) s

  unfoldable pub on_receipt : Fault → String → Option T → Option String → S → Result S T
  unfolding decoded call_fn
  on_receipt fault key fn (some raw) s = record {
    outcome = decoded (decode raw);
    called = false;
    store = s;
  }
  on_receipt fault key fn none s = call_fn fault key fn s

  unfoldable pub with_receipt : Fault → String → Option T → S → Result S T
  unfolding on_receipt
  with_receipt fault key fn s =
      if fails_to_read fault
      then record { outcome = read_error; called = false; store = s }
      else on_receipt fault key fn (rs.get key s) s

  -- Calls in order, with what they answer and whether they called their `fn`.
  unfoldable pub run : List (Fault × String × Option T) → S → List (Outcome T × Bool) × S
  unfolding with_receipt
  run [] s = ([], s)
  run ((fault, key, fn) ∷ calls) s =
      let r = with_receipt fault key fn s in
      let (answers, end) = run calls r.store in ((r.outcome, r.called) ∷ answers, end)

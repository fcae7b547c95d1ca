-- ===== src/State/Graph.antt =====
-- What `Transition.Validate` of internal/state/transition.go accepts, against the transition graph
-- of the state model as a relation, and what a history of accepted transitions can look like.
use the_foundry.Prelude.{
  ◌≡◌, ◌≢◌, ◌↔◌, ◌⊎◌, inl, inr, refl, true, false, none, some, eq_iff, arith, Option-cases,
}
use the_foundry.State.Registry.{
  Status, pending, running, waiting, succeeded, failed, cancelled, known_result_code,
}
use the_foundry.State.{Transition, is_terminal, is_legal, check_reason, check_result, validate}

-- The edges of the graph: PENDING→RUNNING, RUNNING⇄WAITING, RUNNING→SUCCEEDED, and from RUNNING and
-- WAITING to FAILED and CANCELLED.
pub data Edge (from to : Status) : Type 0 where
  begin : from ≡ pending → to ≡ running → Edge from to
  park : from ≡ running → to ≡ waiting → Edge from to
  resume : from ≡ waiting → to ≡ running → Edge from to
  finish : from ≡ running → to ≡ succeeded → Edge from to
  fail : (from ≡ running) ⊎ (from ≡ waiting) → to ≡ failed → Edge from to
  cancel : (from ≡ running) ⊎ (from ≡ waiting) → to ≡ cancelled → Edge from to

-- What the code's tests on the source status, then on the target, have found.
is_legal-Edge : (from to : Status) → is_legal from to ≡ true → Edge from to
unfolding is_legal
is_legal-Edge from to h = grind (
  arith,
  eq_iff pending from,
  eq_iff running from,
  eq_iff waiting from,
  eq_iff running to,
  eq_iff waiting to,
  eq_iff succeeded to,
  eq_iff failed to,
  eq_iff cancelled to,
  begin,
  park,
  resume,
  finish,
  fail,
  cancel,
)

abbrev IsOpen : Status → Status → Type 0
IsOpen from to = (is_terminal from ≡ false) × (is_legal from to ≡ true)

Edge-IsOpen : (from to : Status) → Edge from to → IsOpen from to
unfolding is_legal is_terminal
Edge-IsOpen from to (begin p q) = rw (p, q) (refl, refl)
Edge-IsOpen from to (park p q) = rw (p, q) (refl, refl)
Edge-IsOpen from to (resume p q) = rw (p, q) (refl, refl)
Edge-IsOpen from to (finish p q) = rw (p, q) (refl, refl)
Edge-IsOpen from to (fail (inl p) q) = rw (p, q) (refl, refl)
Edge-IsOpen from to (fail (inr p) q) = rw (p, q) (refl, refl)
Edge-IsOpen from to (cancel (inl p) q) = rw (p, q) (refl, refl)
Edge-IsOpen from to (cancel (inr p) q) = rw (p, q) (refl, refl)

-- The conditions on the fields of an accepted record.
pub record IsAccepted (t : Transition) (from to : Status) : Type 0 where
  pub edge : Edge from to
  pub waiting_reason : to ≡ waiting → t.reason ≢ ""
  pub succeeded_bare : to ≡ succeeded → t.reason ≡ ""
  pub registered : (t.result_code ≡ "") ⊎ (known_result_code t.result_code ≡ some to)

check_reason-none :
    (t : Transition) (to : Status)
    → (check_reason t to ≡ none)
      ↔ ((to ≡ waiting → t.reason ≢ "") × (to ≡ succeeded → t.reason ≡ ""))
unfolding check_reason
check_reason-none t to =
    grind
      (arith, eq_iff to waiting, eq_iff to succeeded, eq_iff t.reason "", eq_iff waiting succeeded)

check_result-none :
    (t : Transition) (to : Status)
    → (check_result t to ≡ none)
      ↔ ((t.result_code ≡ "") ⊎ (known_result_code t.result_code ≡ some to))
unfolding check_result
check_result-none t to = elim (Option-cases (known_result_code t.result_code)) [
  | inl unknown ↦ rw unknown (grind (arith, eq_iff t.result_code ""))
  | inr (status, known) ↦ rw known (grind (arith, eq_iff t.result_code "", eq_iff status to))
]

validate-none-parts :
    (t : Transition) (from to : Status)
    → (validate t from to ≡ none) ↔ (
        (is_terminal from ≡ false)
        × (is_legal from to ≡ true)
        × (check_reason t to ≡ none)
        × (check_result t to ≡ none))
unfolding validate
validate-none-parts t from to = ground arith

-- A transition record is accepted exactly when its statuses are an edge of the graph, a WAITING one
-- has a reason, a SUCCEEDED one has none, and its result code is unset or registered on the target.
pub validate-IsAccepted :
    (t : Transition) (from to : Status) → (validate t from to ≡ none) ↔ IsAccepted t from to
validate-IsAccepted t from to = (accepted, sound)
  where
    accepted : validate t from to ≡ none → IsAccepted t from to
    accepted h =
        let p = (validate-none-parts t from to).0 h in
        let r = (check_reason-none t to).0 p.2 in
        record {
          edge = is_legal-Edge from to p.1;
          waiting_reason = r.0;
          succeeded_bare = r.1;
          registered = (check_result-none t to).0 p.3;
        }

    sound : IsAccepted t from to → validate t from to ≡ none
    sound a =
        let (open_, legal) = Edge-IsOpen from to a.edge in
        (validate-none-parts t from to).1 (
          open_,
          legal,
          (check_reason-none t to).1 (a.waiting_reason, a.succeeded_bare),
          (check_result-none t to).1 a.registered,
        )

-- A workflow's accepted transitions in order, each from the status that the last one reached.
pub data History (s : Status) : Status → Type 0 where
  here : History s s
  next : {u v : Status} (t : Transition) → History s u → validate t u v ≡ none → History s v

pub Edge-source-open : {from to : Status} → Edge from to → is_terminal from ≡ false
Edge-source-open e = (Edge-IsOpen _ _ e).0

step-Edge : {from to : Status} (t : Transition) → validate t from to ≡ none → Edge from to
step-Edge {from} {to} t v = ((validate-IsAccepted t from to).0 v).edge

-- No history of accepted transitions leaves a terminal status.
pub history_terminal : {s u : Status} → History s u → is_terminal s ≡ true → u ≡ s
history_terminal here h = refl
history_terminal {s} (next {u = m} t r v) h =
    let back : m ≡ s = history_terminal r h in
    let live : is_terminal m ≡ false = Edge-source-open (step-Edge t v) in
    absurd (differ (rw back at live) h)
  where
    differ : is_terminal s ≡ false → is_terminal s ≡ true → ⊥
    differ a b = cc

abbrev pub IsCanonical : Status → Type 0
IsCanonical s =
    (s ≡ pending) ⊎ (s ≡ running) ⊎ (s ≡ waiting) ⊎ (s ≡ succeeded) ⊎ (s ≡ failed) ⊎ (s ≡ cancelled)

Edge-IsCanonical : {from to : Status} → Edge from to → IsCanonical to
Edge-IsCanonical (begin p q) = ground arith
Edge-IsCanonical (park p q) = ground arith
Edge-IsCanonical (resume p q) = ground arith
Edge-IsCanonical (finish p q) = ground arith
Edge-IsCanonical (fail p q) = ground arith
Edge-IsCanonical (cancel p q) = ground arith

-- A history that starts in PENDING reaches only the six canonical statuses.
pub history-IsCanonical : {u : Status} → History pending u → IsCanonical u
history-IsCanonical here = inl refl
history-IsCanonical (next t r v) = Edge-IsCanonical (step-Edge t v)

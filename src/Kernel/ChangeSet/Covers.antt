-- ===== src/Kernel/ChangeSet/Covers.antt =====
-- An order of topoOrder holds the alias of every repo.
use the_foundry.Prelude.{
  ℕ, zero, suc, ◌+◌, ◌-◌, ◌≤◌, ◌≡◌, inl, inr, refl, sym, ap, ◌∙◌, Bool, true, false, ◌||◌, ◌==◌,
  eq_iff, String, some, List, [], ◌∷◌, ◌++◌, map, arith, eqb, eqb→≡, length, contains,
  contains-append, lookup, lookup_or, insert, lookup-insert_same, lookup-insert_other, sort_strings,
  insert_sorted, sort_by, str_ltb, Bool-cases, String-cases, Option-cases, if◌then◌else◌,
}
use mathlib.Core.Option.{some-injective}
use the_foundry.Kernel.ChangeSet.{
  RepoNode, Graph, build, roots, settle, kahn, order, complete, order_of, topo_order,
}
use the_foundry.Kernel.ChangeSet.Ends.{waiting, waiting-roots, settle-measure, length-sort_strings}
use the_foundry.Kernel.ChangeSet.Counted.{IsKey, built-cases, build-IsCounted}

contains-insert_sorted :
    (less : String → String → Bool) (x a : String) (xs : List String)
    → contains (insert_sorted less x xs) a ≡ (x == a || contains xs a)
unfolding insert_sorted
contains-insert_sorted less x a [] = refl
contains-insert_sorted less x a (y ∷ ys) = ground (arith, contains-insert_sorted less x a ys)

contains-sort_by :
    (less : String → String → Bool) (xs : List String) (a : String)
    → contains (sort_by less xs) a ≡ contains xs a
unfolding sort_by
contains-sort_by less [] a = refl
contains-sort_by less (x ∷ xs) a =
    contains-insert_sorted less x a (sort_by less xs)
    ∙ ap (λ b. x == a || b) (contains-sort_by less xs a)

contains-sort_strings :
    (xs : List String) (a : String) → contains (sort_strings xs) a ≡ contains xs a
unfolding sort_strings
contains-sort_strings xs a = contains-sort_by str_ltb xs a

-- For one alias: its count, and where that is 0, it is ready or has been taken before.
abbrev IsReached : String → Bool → List String → List (String × ℕ) → Type 0
IsReached a seen ready es =
    (n : ℕ) × (lookup a es ≡ some n) × (n ≡ 0 → (contains ready a || seen) ≡ true)

lookup_or-found :
    (a : String) (n : ℕ) (es : List (String × ℕ)) → lookup a es ≡ some n → lookup_or 0 a es ≡ n
unfolding lookup_or
lookup_or-found a n es found = rw found refl

pushed :
    (b : Bool) (ready : List String) (c a : String) (seen : Bool)
    → (contains ready a || seen) ≡ true
    → (contains (if b then ready ++ c ∷ [] else ready) a || seen) ≡ true
pushed true ready c a seen e = rw contains-append (ground (arith, e))
pushed false ready c a seen e = e

pushed_self :
    (n : ℕ) (ready : List String) (c : String) (seen : Bool)
    → (n ≡ 0 → (contains ready c || seen) ≡ true)
    → n - 1 ≡ 0
    → (contains (if eqb n 1 then ready ++ c ∷ [] else ready) c || seen) ≡ true
pushed_self n ready c seen old e = elim (Bool-cases (eqb n 1)) [
  | inl one ↦ rw (one, contains-append) (ground (arith, eq_iff c c))
  | inr other ↦ rw other (old (ground (arith, other, e)))
]

settle-IsReached :
    (a : String) (seen : Bool) (cs ready : List String) (es : List (String × ℕ))
    → IsReached a seen ready es
    → IsReached a seen (settle cs ready es).0 (settle cs ready es).1
unfolding settle
settle-IsReached a seen [] ready es h = h
settle-IsReached a seen (c ∷ cs) ready es (n, found, zero_ready) =
    let k = lookup_or 0 c es in
    settle-IsReached a seen cs (if eqb k 1 then ready ++ c ∷ [] else ready) (insert c (k - 1) es)
      (elim (String-cases a c) [
        | inl same ↦
            let count : k ≡ n =
              ap (λ x. lookup_or 0 x es) (sym same) ∙ lookup_or-found a n es found in
            (
              k - 1,
              ap (λ x. lookup x (insert c (k - 1) es)) same ∙ lookup-insert_same c (k - 1) es,
              λ e.
                  rw same
                    (pushed_self k ready c seen (λ z. rw same at zero_ready (sym count ∙ z)) e),
            )
        | inr apart ↦ (
          n,
          lookup-insert_other a c (k - 1) es apart ∙ found,
          λ e. pushed (eqb k 1) ready c a seen (zero_ready e),
        )
      ])

waiting-none :
    (a : String) (n : ℕ) (es : List (String × ℕ)) → waiting es ≡ 0 → lookup a es ≡ some n → n ≡ 0
unfolding waiting lookup
waiting-none a n [] none_left found = cc
waiting-none a n (e ∷ es) none_left found = elim (Bool-cases (e.0 == a)) [
  | inl here ↦ sym (some-injective e.1 n (rw here at found)) ∙ ground (arith, none_left)
  | inr there ↦ waiting-none a n es (ground (arith, none_left)) (rw there at found)
]

contains-roots :
    (a : String) (es : List (String × ℕ)) → lookup a es ≡ some 0 → contains (roots es) a ≡ true
unfolding roots lookup
contains-roots a [] found = cc
contains-roots a (e ∷ es) found = elim (Bool-cases (e.0 == a)) [
  | inl here ↦
      let zero_count : e.1 ≡ 0 = some-injective e.1 0 (rw here at found) in
      ground (arith, here, zero_count)
  | inr there ↦ ground (arith, contains-roots a es (rw there at found))
]

-- The loop takes every alias, if it takes as many as there are counts.
kahn-contains :
    (a : String) (seen : Bool) (fuel : ℕ) (dependents : List (String × List String))
    (ready : List String) (es : List (String × ℕ)) (found : List String)
    → kahn fuel dependents ready es ≡ some found
    → IsReached a seen ready es
    → length ready + waiting es ≤ length found
    → (contains found a || seen) ≡ true
unfolding kahn
kahn-contains a seen fuel dependents [] es found e (n, count, reached) all =
    let nothing : [] ≡ found = some-injective [] found e in
    let zero_count : n ≡ 0 = waiting-none a n es (omega (arith, all, ap length nothing)) count in
    rw (sym nothing) (reached zero_count)
kahn-contains a seen zero dependents (next ∷ ready) es found e h all = cc
kahn-contains a seen (suc fuel) dependents (next ∷ ready) es found e (n, count, reached) all =
    let children = sort_strings (lookup_or [] next dependents) in
    let after = settle children ready es in
    let seen' = (next == a) || seen in
    elim (Option-cases (kahn fuel dependents (sort_strings after.0) after.1)) [
      | inl none_left ↦ cc (rw none_left at e)
      | inr (later, rest) ↦
          let split : next ∷ later ≡ found = some-injective (next ∷ later) found (rw rest at e) in
          let (n', count', reached') =
            settle-IsReached a seen' children ready es (n, count, λ z. ground (arith, reached z)) in
          let size = settle-measure children ready es in
          let found_later =
            kahn-contains a seen' fuel dependents (sort_strings after.0) after.1 later rest
              (n', count', λ z. rw contains-sort_strings (reached' z))
              (omega (arith, all, size, length-sort_strings after.0, ap length split)) in
          rw (sym split) (ground (arith, found_later))
    ]

complete-contains :
    (a : String) (repos : ℕ) (dependents : List (String × List String)) (es : List (String × ℕ))
    (aliases : List String)
    → IsKey a es
    → length es ≤ repos
    → complete repos (kahn (length es) dependents (sort_strings (roots es)) es) ≡ order aliases
    → contains aliases a ≡ true
unfolding complete
complete-contains a repos dependents es aliases (n, count) size e =
    elim (Option-cases (kahn (length es) dependents (sort_strings (roots es)) es)) [
      | inl none_left ↦ cc (rw none_left at e)
      | inr (found, taken) ↦ elim (Bool-cases (eqb (length found) repos)) [
        | inr left ↦ cc (rw (taken, left) at e)
        | inl all ↦
            let same : found ≡ aliases = inner (rw (taken, all) at e) in
            let here : (contains found a || false) ≡ true =
              kahn-contains a false (length es) dependents (sort_strings (roots es)) es found taken
                (
                  n,
                  count,
                  λ z.
                      rw contains-sort_strings
                        (ground (arith, contains-roots a es (count ∙ ap some z))),
                )
                (omega (
                  arith,
                  waiting-roots es,
                  length-sort_strings (roots es),
                  size,
                  eqb→≡ (length found) repos all,
                )) in
            rw (sym same) (ground (arith, here))
      ]
    ]
  where
    inner : {x y : List String} → order x ≡ order y → x ≡ y
    inner e = cc

-- Where topoOrder orders a list of repos, the order holds the alias of each of them.
pub topo_order-contains :
    (repos : List RepoNode) (aliases : List String) (a : String)
    → topo_order repos ≡ order aliases
    → contains (map (λ r. r.alias) repos) a ≡ true
    → contains aliases a ≡ true
unfolding topo_order order_of
topo_order-contains repos aliases a e known =
    let start : Graph = record { in_degree = []; dependents = [] } in
    elim (built-cases (build (map (λ r. r.alias) repos) repos start)) [
      | inr (r, d, bad) ↦ cc (rw bad at e)
      | inl (g, good) ↦
          let counted = build-IsCounted (map (λ r. r.alias) repos) repos start g good in
          complete-contains a (length repos) g.dependents g.in_degree aliases (counted.new a known)
            (omega (arith, counted.size)) (rw good at e)
    ]

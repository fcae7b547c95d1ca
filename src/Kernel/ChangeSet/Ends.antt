-- ===== src/Kernel/ChangeSet/Ends.antt =====
-- The rounds that topoOrder is given are enough.
use the_foundry.Prelude.{
  ℕ, zero, suc, ◌+◌, ◌-◌, ◌≤◌, ◌≡◌, inl, inr, refl, ap, ◌∙◌, Bool, true, false, ◌==◌, String,
  Option, none, some, List, [], ◌∷◌, ◌++◌, arith, eqb, length, length-append, lookup, lookup_or,
  insert, sort_strings, insert_sorted, sort_by, str_ltb, Bool-cases, if◌then◌else◌,
}
use mathlib.Core.Option
use the_foundry.Kernel.ChangeSet.{
  RepoNode, Built, built, unknown_repo, roots, settle, kahn, Order, order, depends_on_unknown,
  cycle, out_of_fuel, complete, order_of, topo_order,
}

length-insert_sorted :
    (less : String → String → Bool) (x : String) (xs : List String)
    → length (insert_sorted less x xs) ≡ suc (length xs)
unfolding insert_sorted
length-insert_sorted less x [] = refl
length-insert_sorted less x (y ∷ ys) = ground (arith, length-insert_sorted less x ys)

length-sort_by :
    (less : String → String → Bool) (xs : List String) → length (sort_by less xs) ≡ length xs
unfolding sort_by
length-sort_by less [] = refl
length-sort_by less (x ∷ xs) =
    length-insert_sorted less x (sort_by less xs) ∙ ap suc (length-sort_by less xs)

pub length-sort_strings : (xs : List String) → length (sort_strings xs) ≡ length xs
unfolding sort_strings
length-sort_strings xs = length-sort_by str_ltb xs

-- How many keys have a count above 0.
unfoldable pub waiting : List (String × ℕ) → ℕ
waiting [] = 0
waiting (e ∷ es) = if eqb e.1 0 then waiting es else suc (waiting es)

pub waiting-roots : (es : List (String × ℕ)) → waiting es + length (roots es) ≡ length es
unfolding waiting roots
waiting-roots [] = refl
waiting-roots (e ∷ es) = ground (arith, waiting-roots es)

-- Decreasing a count by 1 leaves one fewer key waiting where it was 1.
waiting-insert :
    (c : String) (n : ℕ) (es : List (String × ℕ))
    → lookup_or 0 c es ≡ n
    → waiting (insert c (n - 1) es) + (if eqb n 1 then 1 else 0) ≤ waiting es
unfolding waiting insert lookup lookup_or
waiting-insert c n [] e = ground (arith, e)
waiting-insert c n (x ∷ es) e = elim (Bool-cases (x.0 == c)) [
  | inl here ↦ rw here (ground (arith, rw here at e))
  | inr there ↦ rw there (ground (arith, waiting-insert c n es (rw there at e)))
]

length-pushed :
    (b : Bool) (c : String) (ready : List String)
    → length (if b then ready ++ c ∷ [] else ready) ≡ length ready + (if b then 1 else 0)
length-pushed true c ready = length-append ready (c ∷ [])
length-pushed false c ready = omega arith

pub settle-measure :
    (cs ready : List String) (es : List (String × ℕ))
    → length (settle cs ready es).0 + waiting (settle cs ready es).1 ≤ length ready + waiting es
unfolding settle
settle-measure [] ready es = omega arith
settle-measure (c ∷ cs) ready es =
    let n = lookup_or 0 c es in
    let less = waiting-insert c n es refl in
    let ready' = if eqb n 1 then ready ++ c ∷ [] else ready in
    omega
      (arith, settle-measure cs ready' (insert c (n - 1) es), length-pushed (eqb n 1) c ready, less)

ends : Option (List String) → Bool
ends none = false
ends (some found) = true

ends-map : (next : String) (o : Option (List String)) → ends (Option.map (λ l. next ∷ l) o) ≡ ends o
unfolding ends
ends-map next none = refl
ends-map next (some l) = refl

kahn-ends :
    (fuel : ℕ) (dependents : List (String × List String)) (ready : List String)
    (es : List (String × ℕ))
    → length ready + waiting es ≤ fuel
    → ends (kahn fuel dependents ready es) ≡ true
unfolding kahn ends
kahn-ends fuel dependents [] es enough = refl
kahn-ends zero dependents (next ∷ ready) es enough = ground (arith, enough)
kahn-ends (suc fuel) dependents (next ∷ ready) es enough =
    let children = sort_strings (lookup_or [] next dependents) in
    let after = settle children ready es in
    ends-map next (kahn fuel dependents (sort_strings after.0) after.1)
    ∙ kahn-ends fuel dependents (sort_strings after.0) after.1
        (omega (arith, enough, settle-measure children ready es, length-sort_strings after.0))

abbrev pub ran_out : Order → Bool
ran_out (order aliases) = false
ran_out (depends_on_unknown r d) = false
ran_out (cycle n) = false
ran_out out_of_fuel = true

complete-ends :
    (repos : ℕ) (o : Option (List String)) → ends o ≡ true → ran_out (complete repos o) ≡ false
unfolding complete ends
complete-ends repos none e = cc
complete-ends repos (some found) e = elim (Bool-cases (eqb (length found) repos)) [
  | inl all ↦ rw all refl
  | inr some_left ↦ rw some_left refl
]

order_of-ends : (repos : ℕ) (b : Built) → ran_out (order_of repos b) ≡ false
unfolding order_of
order_of-ends repos (unknown_repo r d) = refl
order_of-ends repos (built g) = complete-ends repos _ (
    kahn-ends (length g.in_degree) g.dependents (sort_strings (roots g.in_degree)) g.in_degree
      (omega (arith, waiting-roots g.in_degree, length-sort_strings (roots g.in_degree))))

-- topoOrder ends on every list of repos: the loop needs at most one round for each alias.
pub topo_order_ends : (repos : List RepoNode) → ran_out (topo_order repos) ≡ false
unfolding topo_order
topo_order_ends repos = order_of-ends (length repos) _

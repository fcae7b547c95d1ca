-- ===== src/Policy/Merged.antt =====
-- Each merge function moves its field to a value that is at least as strict.
use the_foundry.Prelude.{
  ◌≡◌, ◌⊎◌, refl, sym, ap, ◌∙◌, subst, Bool, true, false, eq_iff, String, some, List, [], ◌∷◌, ◌++◌,
  inl, inr, arith, contains, lookup, insert, lookup-insert_same, lookup-insert_other, String-cases,
  Bool-cases, Option-cases, sort_strings,
}
use the_foundry.Policy.{Layer, Field, Override, names}
use the_foundry.Policy.Results.{ok, bind-ok, Updated}
use the_foundry.Policy.Merge
use the_foundry.Policy.Stricter.{
  IsWithinSet, IsKept, IsWithinMap, IsWithinFlag, IsOrder, IsWithinMap-refl, IsWithinMap-trans,
  Moves, IsKept-refl,
}
use mathlib.Core.List.{append_assoc, append-nil}

module _ {A : Type 0} (R : A → A → Type 0) where
  pub Moves-same : (a : A) (o : List Override) → R a a → Moves R a a o o
  Moves-same a o r = record {
    within = r;
    more = [];
    recorded = sym (append-nil o);
    silent = λ e. refl;
  }

  pub Moves-one : (a b : A) (o : List Override) (x : Override) → R a b → Moves R a b o (o ++ x ∷ [])
  Moves-one a b o x r = record { within = r; more = x ∷ []; recorded = refl; silent = λ e. cc }

  both_empty : (xs ys : List Override) → xs ++ ys ≡ [] → (xs ≡ []) × (ys ≡ [])
  both_empty [] ys e = (refl, e)
  both_empty (x ∷ xs) ys e = cc

  pub Moves-trans :
      (a b c : A) (o p q : List Override)
      → (R a b → R b c → R a c)
      → Moves R a b o p
      → Moves R b c p q
      → Moves R a c o q
  Moves-trans a b c o p q trans x y = record {
    within = trans x.within y.within;
    more = x.more ++ y.more;
    recorded = y.recorded ∙ ap (λ z. z ++ y.more) x.recorded ∙ append_assoc o x.more y.more;
    silent = λ e. let s = both_empty x.more y.more e in y.silent s.1 ∙ x.silent s.0;
  }

  -- A result that is known is the one that is returned.
  pub Moves-ok :
      (a b c : A) (o p q : List Override)
      → ◌≡◌ {A = Updated A} (ok (b, p)) (ok (c, q))
      → Moves R a b o p
      → Moves R a c o q
  Moves-ok a b c o p q e m = subst (λ z. Moves R a z.0 o z.1) (inner e) m
    where
      inner :
          ◌≡◌ {A = Updated A} (ok (b, p)) (ok (c, q)) → ◌≡◌ {A = A × List Override} (b, p) (c, q)
      inner e = cc

List-cases : (xs : List String) → (xs ≡ []) ⊎ ((y : String) × (ys : List String) × (xs ≡ y ∷ ys))
List-cases [] = inl refl
List-cases (x ∷ xs) = inr (x, xs, refl)

added_to-none : (prev vs : List String) → Merge.added_to prev vs ≡ [] → IsWithinSet prev vs
unfolding Merge.added_to
added_to-none prev [] e v h = cc
added_to-none prev (x ∷ xs) e v h = elim (String-cases x v) [
  | inl same ↦ subst (λ z. contains prev z ≡ true) same (ground (arith, e))
  | inr apart ↦ added_to-none prev xs (ground (arith, e)) v (ground (arith, eq_iff x v, h))
]

equal_strings→≡ : (xs ys : List String) → Merge.equal_strings xs ys ≡ true → xs ≡ ys
unfolding Merge.equal_strings
equal_strings→≡ [] [] e = refl
equal_strings→≡ [] (y ∷ ys) e = cc
equal_strings→≡ (x ∷ xs) [] e = cc
equal_strings→≡ (x ∷ xs) (y ∷ ys) e = ground (arith, eq_iff x y, equal_strings→≡ xs ys)

pub merge_string_set-Moves :
    (field : Field) (layer : Layer) (prev next merged : List String) (o o' : List Override)
    → Merge.merge_string_set field layer prev next o ≡ ok (merged, o')
    → Moves IsWithinSet prev merged o o'
unfolding Merge.merge_string_set
merge_string_set-Moves field layer prev next merged o o' e =
    let sorted = sort_strings next in
    elim (List-cases (Merge.added_to prev sorted)) [
      | inl none_added ↦ elim (Bool-cases (Merge.equal_strings prev sorted)) [
        | inl same ↦
            Moves-ok IsWithinSet prev prev merged o o o' (ground (arith, none_added, same, e))
              (Moves-same IsWithinSet prev o λ v h. h)
        | inr differs ↦
            let x = Merge.override layer field (names prev) (names sorted) in
            Moves-ok IsWithinSet prev sorted merged o (o ++ x ∷ []) o'
              (ground (arith, none_added, differs, e))
              (Moves-one IsWithinSet prev sorted o x (added_to-none prev sorted none_added))
      ]
      | inr (x, xs, added) ↦ cc
    ]

insert-IsWithinMap :
    {V : Type 0} (rules : Merge.Rules V) (W : V → V → Type 0) (order : IsOrder rules W)
    (key : String) (old new : V) (prev : List (String × V))
    → lookup key prev ≡ some old
    → rules.allowed old new ≡ true
    → IsWithinMap W prev (insert key new prev)
insert-IsWithinMap rules W order key old new prev found allowed other =
    elim (String-cases other key) [
      | inl same ↦
          subst (λ k. IsKept W (lookup k prev) (lookup k (insert key new prev))) (sym same)
            (rw (found, lookup-insert_same key new prev) (order.allowed_kept old new allowed))
      | inr apart ↦
          rw (lookup-insert_other other key new prev apart)
            (IsKept-refl rules W order (lookup other prev))
    ]

merge_value-Moves :
    {V : Type 0} (rules : Merge.Rules V) (W : V → V → Type 0) (layer : Layer)
    (order : IsOrder rules W) (key : String) (new : V) (prev merged : List (String × V))
    (o o' : List Override)
    → Merge.merge_value rules layer key new (lookup key prev) prev o ≡ ok (merged, o')
    → Moves (IsWithinMap W) prev merged o o'
unfolding Merge.merge_value
merge_value-Moves rules W layer order key new prev merged o o' e =
    elim (Option-cases (lookup key prev)) [
      | inl unset ↦ ground (arith, unset, e)
      | inr (old, found) ↦ elim (Bool-cases (rules.same new old)) [
        | inl same ↦
            Moves-ok (IsWithinMap W) prev prev merged o o o' (ground (arith, found, same, e))
              (Moves-same (IsWithinMap W) prev o (IsWithinMap-refl rules W order prev))
        | inr differs ↦
            let x = Merge.override layer rules.field (rules.show key old) (rules.show key new) in
            Moves-ok (IsWithinMap W) prev (insert key new prev) merged o (o ++ x ∷ []) o'
              (ground (arith, found, differs, e))
              (Moves-one (IsWithinMap W) prev (insert key new prev) o x (
                insert-IsWithinMap rules W order key old new prev found
                  (ground (arith, found, differs, e))))
      ]
    ]

module _ {V : Type 0} (rules : Merge.Rules V) (W : V → V → Type 0) (layer : Layer)
    (order : IsOrder rules W) where
  merge_keys-Moves :
      (next : List (String × V)) (keys : List String) (prev merged : List (String × V))
      (o o' : List Override)
      → Merge.merge_keys rules layer next keys prev o ≡ ok (merged, o')
      → Moves (IsWithinMap W) prev merged o o'
  unfolding Merge.merge_keys Merge.merge_key
  merge_keys-Moves next [] prev merged o o' e =
      Moves-ok (IsWithinMap W) prev prev merged o o o' e
        (Moves-same (IsWithinMap W) prev o (IsWithinMap-refl rules W order prev))
  merge_keys-Moves next (key ∷ keys) prev merged o o' e = elim (Option-cases (lookup key next)) [
    | inl unset ↦ merge_keys-Moves next keys prev merged o o' (rw unset at e)
    | inr (new, found) ↦
        let step = Merge.merge_value rules layer key new (lookup key prev) prev o in
        let (m, first, rest) =
          bind-ok step (λ m. Merge.merge_keys rules layer next keys m.0 m.1) (rw found at e) in
        Moves-trans (IsWithinMap W) prev m.0 merged o m.1 o'
          (IsWithinMap-trans rules W order prev m.0 merged)
          (merge_value-Moves rules W layer order key new prev m.0 o m.1 first)
          (merge_keys-Moves next keys m.0 merged m.1 o' rest)
  ]

  pub merge_map-Moves :
      (prev next merged : List (String × V)) (o o' : List Override)
      → Merge.merge_map rules layer prev next o ≡ ok (merged, o')
      → Moves (IsWithinMap W) prev merged o o'
  unfolding Merge.merge_map
  merge_map-Moves prev next merged o o' e = merge_keys-Moves next _ prev merged o o' e

pub merge_require_sandbox-Moves :
    (layer : Layer) (prev next merged : Bool) (o o' : List Override)
    → Merge.merge_require_sandbox layer prev next o ≡ ok (merged, o')
    → Moves IsWithinFlag prev merged o o'
unfolding Merge.merge_require_sandbox
merge_require_sandbox-Moves layer true true merged o o' e =
    Moves-ok IsWithinFlag true true merged o o o' e (Moves-same IsWithinFlag true o λ h. h)
merge_require_sandbox-Moves layer true false merged o o' e = cc
merge_require_sandbox-Moves layer false true merged o o' e =
    Moves-ok IsWithinFlag false true merged o _ o' e
      (Moves-one IsWithinFlag false true o _ λ h. refl)
merge_require_sandbox-Moves layer false false merged o o' e =
    Moves-ok IsWithinFlag false false merged o o o' e (Moves-same IsWithinFlag false o λ h. h)

pub merge_fixed_string-same :
    (layer : Layer) (prev next : String) (o o' : List Override)
    → Merge.merge_fixed_string layer prev next o ≡ ok o'
    → o' ≡ o
unfolding Merge.merge_fixed_string
merge_fixed_string-same layer prev next o o' e = ground (arith, e)

-- ===== src/Policy/Merging.antt =====
-- When a layer's map is merged, and to what.
use the_foundry.Prelude.{
  ◌≡◌, ◌≢◌, ◌⊎◌, inl, inr, refl, sym, ap, ◌∙◌, subst, true, eq_iff, String, none, some, List, [],
  ◌∷◌, arith, contains, lookup, insert, lookup-insert_same, lookup-insert_other, String-cases,
  Bool-cases, Option-cases,
}
use mathlib.Core.Option.{some-injective}
use the_foundry.Policy.{Layer, Override}
use the_foundry.Policy.Results.{ok, ◌>>=◌, bind-ok}
use the_foundry.Policy.Merge.{Rules, merge_value, merge_key, merge_keys}
use the_foundry.Policy.Stricter.{IsLawful}

module _ {V : Type 0} (rules : Rules V) where
  -- The value is valid, the key is inherited, and the value is no weaker than the inherited one.
  abbrev pub IsAllowed : List (String × V) → String → V → Type 0
  IsAllowed prev key new =
      (rules.is_valid new ≡ true)
      × ((old : V) × (lookup key prev ≡ some old) × (rules.allowed old new ≡ true))

  -- Every entry of the layer is valid, of a key that is inherited, and no weaker.
  abbrev pub IsMergeable : List (String × V) → List (String × V) → Type 0
  IsMergeable prev next =
      (key : String) (new : V) → lookup key next ≡ some new → IsAllowed prev key new

module _ {V : Type 0} (rules : Rules V) (layer : Layer) (order : IsLawful rules) where
  asks :
      (key : String) (new : V) (prev : List (String × V)) (o : List Override)
      (r : List (String × V) × List Override)
      → merge_value rules layer key new (lookup key prev) prev o ≡ ok r
      → IsAllowed rules prev key new
  unfolding merge_value
  asks key new prev o r e = elim (Option-cases (lookup key prev)) [
    | inl unset ↦ ground (arith, unset, e)
    | inr (old, found) ↦ (ground (arith, found, e), (old, found, ground (arith, found, e)))
  ]

  abbrev IsSetAt : (key : String) (new : V) (prev : List (String × V)) → List (String × V) → Type 0
  IsSetAt key new prev after =
      (lookup key after ≡ some new)
      × ((other : String) → other ≢ key → lookup other after ≡ lookup other prev)

  leaves :
      (key : String) (new : V) (prev : List (String × V)) (o : List Override)
      (r : List (String × V) × List Override)
      → merge_value rules layer key new (lookup key prev) prev o ≡ ok r
      → IsSetAt key new prev r.0
  unfolding merge_value
  leaves key new prev o r e = elim (Option-cases (lookup key prev)) [
    | inl unset ↦ ground (arith, unset, e)
    | inr (old, found) ↦ elim (Bool-cases (rules.same new old)) [
      | inl same ↦
          let after : prev ≡ r.0 = ground (arith, found, same, e) in
          let equal = order.same_equal new old same in
          subst (IsSetAt key new prev) after (found ∙ ap some (sym equal), λ other apart. refl)
      | inr differs ↦
          let after : insert key new prev ≡ r.0 = ground (arith, found, differs, e) in
          subst (IsSetAt key new prev) after (
            lookup-insert_same key new prev,
            λ other apart. lookup-insert_other other key new prev apart,
          )
    ]
  ]

  reach_later :
      {P : Type 0} (key k : String) (keys : List String)
      → (contains (key ∷ keys) k ≡ true) ⊎ P
      → k ≢ key
      → (contains keys k ≡ true) ⊎ P
  reach_later key k keys (inl c) apart =
      inl (ground (arith, c, eq_iff key k, λ (s : key ≡ k). apart (sym s)))
  reach_later key k keys (inr p) apart = inr p

  -- An entry of the layer that the loop has reached or reaches is in the result.
  pub merge_keys-set :
      (next : List (String × V)) (keys : List String) (prev : List (String × V)) (o : List Override)
      (r : List (String × V) × List Override) (k : String) (v : V)
      → merge_keys rules layer next keys prev o ≡ ok r
      → lookup k next ≡ some v
      → (contains keys k ≡ true) ⊎ (lookup k prev ≡ some v)
      → lookup k r.0 ≡ some v
  unfolding merge_keys merge_key
  merge_keys-set next [] prev o r k v e here (inl c) = cc
  merge_keys-set next [] prev o r k v e here (inr kept) = ap (lookup k) (cc) ∙ kept
  merge_keys-set next (key ∷ keys) prev o r k v e here reach =
      elim (Option-cases (lookup key next)) [
        | inl unset ↦
            merge_keys-set next keys prev o r k v (rw unset at e) here
              (reach_later key k keys reach λ s. cc)
        | inr (new, found) ↦
            let step = merge_value rules layer key new (lookup key prev) prev o in
            let (m, first, rest) =
              bind-ok step (λ m. merge_keys rules layer next keys m.0 m.1) (rw found at e) in
            let (placed, others) = leaves key new prev o m first in
            merge_keys-set next keys m.0 m.1 r k v rest here (elim (String-cases k key) [
              | inl same ↦ inr (
                  ap (λ z. lookup z m.0) same
                  ∙ placed
                  ∙ sym found
                  ∙ ap (λ z. lookup z next) (sym same)
                  ∙ here)
              | inr apart ↦ elim (reach_later key k keys reach apart) [
                | inl later ↦ inl later
                | inr kept ↦ inr (others k apart ∙ kept)
              ]
            ])
      ]

  pub merge_keys-unset :
      (next : List (String × V)) (keys : List String) (prev : List (String × V)) (o : List Override)
      (r : List (String × V) × List Override) (k : String)
      → merge_keys rules layer next keys prev o ≡ ok r
      → lookup k next ≡ none
      → lookup k r.0 ≡ lookup k prev
  unfolding merge_keys merge_key
  merge_keys-unset next [] prev o r k e absent = ap (lookup k) (cc)
  merge_keys-unset next (key ∷ keys) prev o r k e absent = elim (Option-cases (lookup key next)) [
    | inl unset ↦ merge_keys-unset next keys prev o r k (rw unset at e) absent
    | inr (new, found) ↦
        let step = merge_value rules layer key new (lookup key prev) prev o in
        let (m, first, rest) =
          bind-ok step (λ m. merge_keys rules layer next keys m.0 m.1) (rw found at e) in
        let other = (leaves key new prev o m first).1 k λ s. cc in
        merge_keys-unset next keys m.0 m.1 r k rest absent ∙ other
  ]

  pub merge_keys-asks :
      (next : List (String × V)) (keys : List String) (prev : List (String × V)) (o : List Override)
      (r : List (String × V) × List Override) (k : String) (v : V)
      → merge_keys rules layer next keys prev o ≡ ok r
      → contains keys k ≡ true
      → lookup k next ≡ some v
      → IsAllowed rules prev k v
  unfolding merge_keys merge_key
  merge_keys-asks next [] prev o r k v e c here = cc
  merge_keys-asks next (key ∷ keys) prev o r k v e c here = elim (Option-cases (lookup key next)) [
    | inl unset ↦ elim (reach_later {P = ⊥} key k keys (inl c) λ s. cc) [
      | inl later ↦ merge_keys-asks next keys prev o r k v (rw unset at e) later here
      | inr x ↦ absurd x
    ]
    | inr (new, found) ↦
        let step = merge_value rules layer key new (lookup key prev) prev o in
        let (m, first, rest) =
          bind-ok step (λ m. merge_keys rules layer next keys m.0 m.1) (rw found at e) in
        let (placed, others) = leaves key new prev o m first in
        elim (String-cases k key) [
          | inl same ↦
              let equal : new ≡ v =
                some-injective new v (sym found ∙ ap (λ z. lookup z next) (sym same) ∙ here) in
              subst (λ (z : String × V). IsAllowed rules prev z.0 z.1) (λ i. (sym same i, equal i))
                (asks key new prev o m first)
          | inr apart ↦ elim (reach_later {P = ⊥} key k keys (inl c) apart) [
            | inl later ↦
                let (ok_value, (old, was, may)) =
                  merge_keys-asks next keys m.0 m.1 r k v rest later here in
                (ok_value, (old, sym (others k apart) ∙ was, may))
            | inr x ↦ absurd x
          ]
        ]
  ]

  value-ok :
      (key : String) (new : V) (prev : List (String × V)) (o : List Override)
      → IsAllowed rules prev key new
      → (r : List (String × V) × List Override) × (merge_value rules layer key new
            (lookup key prev)
            prev
            o
          ≡ ok r)
  unfolding merge_value
  value-ok key new prev o (valid, (old, found, may)) = elim (Bool-cases (rules.same new old)) [
    | inl same ↦ ((prev, o), ground (arith, valid, found, may, same))
    | inr differs ↦ rw (valid, found, may, differs) (_, refl)
  ]

  still_able :
      (key : String) (new : V) (prev after next : List (String × V))
      → lookup key next ≡ some new
      → IsSetAt key new prev after
      → IsMergeable rules prev next
      → IsMergeable rules after next
  still_able key new prev after next found (placed, others) able k v here =
      let (valid, (old, was, may)) = able k v here in
      elim (String-cases k key) [
        | inl same ↦
            let equal : new ≡ v =
              some-injective new v (sym found ∙ ap (λ z. lookup z next) (sym same) ∙ here) in
            (
              valid,
              (v, ap (λ z. lookup z after) same ∙ placed ∙ ap some equal, order.allowed_refl v),
            )
        | inr apart ↦ (valid, (old, others k apart ∙ was, may))
      ]

  pub merge_keys-ok :
      (next : List (String × V)) (keys : List String) (prev : List (String × V)) (o : List Override)
      → IsMergeable rules prev next
      → (r : List (String × V) × List Override) × (merge_keys rules layer next keys prev o ≡ ok r)
  unfolding merge_keys merge_key
  merge_keys-ok next [] prev o able = ((prev, o), refl)
  merge_keys-ok next (key ∷ keys) prev o able = elim (Option-cases (lookup key next)) [
    | inl unset ↦ rw unset (merge_keys-ok next keys prev o able)
    | inr (new, found) ↦
        let (m, first) = value-ok key new prev o (able key new found) in
        let (placed, others) = leaves key new prev o m first in
        let (r, rest) =
          merge_keys-ok next keys m.0 m.1
            (still_able key new prev m.0 next found (placed, others) able) in
        (r, rw found (ap (λ z. z >>= λ m. merge_keys rules layer next keys m.0 m.1) first ∙ rest))
  ]

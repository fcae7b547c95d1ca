-- ===== src/Policy/Overlay.antt =====
-- A layer's map as it is merged: exactly when, and to what.
use the_foundry.Prelude.{
  ◌≡◌, ◌↔◌, inl, inr, refl, ◌∙◌, true, ◌==◌, String, Option, none, some, List, [], ◌∷◌, map,
  contains, lookup, Bool-cases, Option-cases, or_true,
}
use the_foundry.Pec.Waves.Sets.{contains-sort_strings}
use the_foundry.Policy.{Layer, Override}
use the_foundry.Policy.Results.{ok}
use the_foundry.Policy.Merge.{Rules, merge_map, sorted_map_keys}
use the_foundry.Policy.Stricter.{IsLawful}
use the_foundry.Policy.Merging.{
  IsMergeable, merge_keys-set, merge_keys-unset, merge_keys-asks, merge_keys-ok,
}

-- The layer's entry where it has one, the inherited entry otherwise.
unfoldable pub overlay : {V : Type 0} → Option V → Option V → Option V
overlay (some new) old = some new
overlay none old = old

contains-keys :
    {V : Type 0} (entries : List (String × V)) (k : String) (v : V)
    → lookup k entries ≡ some v
    → contains (map (λ e. e.0) entries) k ≡ true
unfolding lookup
contains-keys [] k v e = cc
contains-keys (entry ∷ later) k v e = elim (Bool-cases (entry.0 == k)) [
  | inl here ↦ rw here refl
  | inr there ↦ or_true (entry.0 == k) (contains-keys later k v (rw there at e))
]

contains-sorted_map_keys :
    {V : Type 0} (entries : List (String × V)) (k : String) (v : V)
    → lookup k entries ≡ some v
    → contains (sorted_map_keys entries) k ≡ true
unfolding sorted_map_keys
contains-sorted_map_keys entries k v e = contains-sort_strings _ k ∙ contains-keys entries k v e

module _ {V : Type 0} (rules : Rules V) (layer : Layer) (order : IsLawful rules) where
  -- For rules under which a value may replace itself and values that test as equal are equal: a
  -- layer's map is merged exactly when each of its entries is valid, has a key that is inherited,
  -- and may replace the inherited value; the merged map has the layer's value at each key that the
  -- layer sets and the inherited value, or none, at every other.
  pub merge_map-overlay :
      (prev next : List (String × V)) (o : List Override)
      → (IsMergeable rules prev next
          ↔ ((r : List (String × V) × List Override) × (merge_map rules layer prev next o ≡ ok r)))
        × ((r : List (String × V) × List Override)
            → merge_map rules layer prev next o ≡ ok r
            → (key : String) → lookup key r.0 ≡ overlay (lookup key next) (lookup key prev))
  unfolding merge_map overlay
  merge_map-overlay prev next o = (
    (
      λ able. merge_keys-ok rules layer order next (sorted_map_keys next) prev o able,
      λ x k v here.
          merge_keys-asks rules layer order next (sorted_map_keys next) prev o x.0 k v x.1
            (contains-sorted_map_keys next k v here) here,
    ),
    λ r e key. elim (Option-cases (lookup key next)) [
      | inl absent ↦
          rw absent
            (merge_keys-unset rules layer order next (sorted_map_keys next) prev o r key e absent)
      | inr (v, here) ↦ rw here (
          merge_keys-set rules layer order next (sorted_map_keys next) prev o r key v e here
            (inl (contains-sorted_map_keys next key v here)))
    ],
  )

-- ===== src/Prelude/Maps.antt =====
-- Go maps with text keys as association lists, with their laws for the same key and for another.
use Prim.Native.String.{String}
use mathlib.Core.Path.{◌≡◌, refl}
use mathlib.Core.Logic.{◌≢◌}
use mathlib.Core.Option.{Option, none, some, get_or}
use mathlib.Core.List.{List, [], ◌∷◌}
use native.Mathlib.Omega.{arith}
use text.Mathlib.Text.{◌==◌}
use text.Mathlib.TextEquality.{eq_iff}
use the_foundry.Prelude.Tests.{if◌then◌else◌}

module _ {ℓ} {V : Type ℓ} where
  -- m[k] = v
  unfoldable pub insert : String → V → List (String × V) → List (String × V)
  insert key value [] = (key, value) ∷ []
  insert key value (entry ∷ later) =
      if entry.0 == key then (key, value) ∷ later else entry ∷ insert key value later

  -- v, ok := m[k]
  unfoldable pub lookup : String → List (String × V) → Option V
  lookup key [] = none
  lookup key (entry ∷ later) = if entry.0 == key then some entry.1 else lookup key later

  -- delete(m, k)
  unfoldable pub delete : String → List (String × V) → List (String × V)
  delete key [] = []
  delete key (entry ∷ later) =
      let rest = delete key later in if entry.0 == key then rest else entry ∷ rest

  pub lookup-insert_same :
      (key : String) (value : V) (entries : List (String × V))
      → lookup key (insert key value entries) ≡ some value
  unfolding insert lookup
  lookup-insert_same key value [] = ground (arith, eq_iff key key)
  lookup-insert_same key value (entry ∷ later) =
      ground (arith, eq_iff key key, lookup-insert_same key value later)

  pub lookup-insert_other :
      (other key : String) (value : V) (entries : List (String × V))
      → other ≢ key
      → lookup other (insert key value entries) ≡ lookup other entries
  unfolding insert lookup
  lookup-insert_other other key value [] apart = ground (arith, eq_iff key other)
  lookup-insert_other other key value (entry ∷ later) apart = ground (
    arith,
    eq_iff key other,
    eq_iff entry.0 key,
    eq_iff entry.0 other,
    lookup-insert_other other key value later apart,
  )

  pub lookup-delete_same :
      (key : String) (entries : List (String × V)) → lookup key (delete key entries) ≡ none
  unfolding delete lookup
  lookup-delete_same key [] = refl
  lookup-delete_same key (entry ∷ later) = ground (arith, lookup-delete_same key later)

  pub lookup-delete_other :
      (other key : String) (entries : List (String × V))
      → other ≢ key
      → lookup other (delete key entries) ≡ lookup other entries
  unfolding delete lookup
  lookup-delete_other other key [] apart = refl
  lookup-delete_other other key (entry ∷ later) apart =
      ground
        (arith, eq_iff entry.0 key, eq_iff entry.0 other, lookup-delete_other other key later apart)

  -- m[k], the zero value where the key is absent
  unfoldable pub lookup_or : V → String → List (String × V) → V
  lookup_or d k m = get_or (lookup k m) d

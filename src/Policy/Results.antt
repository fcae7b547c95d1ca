-- ===== src/Policy/Results.antt =====
-- A value, or the error that stopped the compilation, as every function of the compiler returns.
use the_foundry.Prelude.{◌≡◌, refl, List}
use the_foundry.Policy.{CompileError, Override}

pub data Result {ℓ} (A : Type ℓ) : Type ℓ where
  failed : CompileError → Result A
  ok : A → Result A

-- A field's merged value with the overrides recorded so far.
abbrev pub Updated {ℓ} : Type ℓ → Type ℓ
Updated A = Result (A × List Override)

module _ {ℓ κ} {A : Type ℓ} {B : Type κ} where
  infixl 5 ◌>>=◌
  -- if err != nil { return err }
  abbrev pub ◌>>=◌ : Result A → (A → Result B) → Result B
  ◌>>=◌ (failed e) rest = failed e
  ◌>>=◌ (ok a) rest = rest a

  -- A chain that succeeds has succeeded in each part.
  pub bind-ok :
      (first : Result A) (rest : A → Result B) {b : B}
      → (first >>= rest) ≡ ok b
      → (a : A) × (first ≡ ok a) × (rest a ≡ ok b)
  bind-ok (failed e) rest h = cc
  bind-ok (ok a) rest h = (a, refl, h)

-- ===== src/Recovery/Signature.antt =====
-- FailureSignature of internal/recovery/retrypolicy.go, and the no-progress test that the retry
-- policy and the supervisor share.
use Prim.Native.String
use the_foundry.Prelude.{
  ◌≡◌, ◌≢◌, ◌↔◌, inl, inr, refl, sym, ap, ◌∙◌, Bool, true, false, Bool-cases, eq_iff, ==-false→ne,
  String, List, [], ◌∷◌, ◌++◌, ◌==◌,
}
use the_foundry.Verify.{Classification}

pub record FailureSignature : Type 0 where
  pub classification : Classification
  pub detail : String
  pub missing_dependency : Bool
  pub contradictory_spec : Bool
  pub evidence_refs : List String

unfoldable pub key : FailureSignature → String
key s = String.◌++◌ s.classification (String.◌++◌ "|" s.detail)

-- n >= 2 && history[n-1].Key() == history[n-2].Key()
unfoldable pub repeats : List FailureSignature → Bool
repeats [] = false
repeats (a ∷ []) = false
repeats (a ∷ b ∷ []) = key b == key a
repeats (a ∷ b ∷ c ∷ rest) = repeats (b ∷ c ∷ rest)

pub repeats-last :
    (earlier : List FailureSignature) (a b : FailureSignature)
    → repeats (earlier ++ a ∷ b ∷ []) ≡ (key b == key a)
unfolding repeats
repeats-last [] a b = refl
repeats-last (x ∷ []) a b = refl
repeats-last (x ∷ y ∷ []) a b = refl
repeats-last (x ∷ y ∷ z ∷ earlier) a b = repeats-last (y ∷ z ∷ earlier) a b

repeats-split :
    (h : List FailureSignature)
    → repeats h ≡ true
    → (earlier : List FailureSignature) × (a : FailureSignature) × (b : FailureSignature) × (h
        ≡ earlier ++ a ∷ b ∷ [])
      × (key b ≡ key a)
unfolding repeats
repeats-split [] e = cc
repeats-split (a ∷ []) e = cc
repeats-split (a ∷ b ∷ []) e = ([], a, b, refl, (eq_iff (key b) (key a)).0 e)
repeats-split (a ∷ b ∷ c ∷ rest) e =
    let (earlier, x, y, split, same) = repeats-split (b ∷ c ∷ rest) e in
    (a ∷ earlier, x, y, ap {B = List FailureSignature} (λ h. a ∷ h) split, same)

-- The last two failures, where there are two, differ in the text of classification, bar and detail.
abbrev pub IsVaried : List FailureSignature → Type 0
IsVaried h =
    (earlier : List FailureSignature) (a b : FailureSignature)
    → h ≡ earlier ++ a ∷ b ∷ []
    → String.◌++◌ b.classification (String.◌++◌ "|" b.detail)
      ≢ String.◌++◌ a.classification (String.◌++◌ "|" a.detail)

pub repeats-IsVaried : (h : List FailureSignature) → (repeats h ≡ false) ↔ IsVaried h
unfolding key
repeats-IsVaried h = (
  λ e earlier a b split.
      ==-false→ne (key b) (key a) (sym (repeats-last earlier a b) ∙ ap repeats (sym split) ∙ e),
  λ varied. elim (Bool-cases (repeats h)) [
    | inl same ↦
        let (earlier, a, b, split, keys) = repeats-split h same in
        absurd (varied earlier a b split keys)
    | inr differ ↦ differ
  ],
)

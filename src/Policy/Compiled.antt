-- ===== src/Policy/Compiled.antt =====
-- What a compiled policy promises, whatever the layers ask for.
use the_foundry.Prelude.{◌≡◌, refl, sym, ap, ◌∙◌, subst, String, Option, none, some, []}
use the_foundry.Policy.{Policy, LayerPolicy, Draft, org, profile, workflow}
use the_foundry.Policy.Results.{Result, ok, failed, bind-ok}
use the_foundry.Policy.Compile.{
  platform_effective, fold_layers, Resolved, resolved, sealed, finish, compile,
}
use the_foundry.Policy.Stricter.{IsStricter}
use the_foundry.Policy.Tightened.{Tightens, Tightens-trans, apply_layer-Tightens}

fold_layers-Tightens :
    (o p w : LayerPolicy) (ceiling : Policy) (d : Draft)
    → fold_layers o p w ceiling ≡ ok d
    → Tightens (record { effective = ceiling; overrides = [] }) d
unfolding fold_layers
fold_layers-Tightens o p w ceiling d e0 =
    let start : Draft = record { effective = ceiling; overrides = [] } in
    let (a, s1, e1) = bind-ok _ _ e0 in
    let (b, s2, s3) = bind-ok _ _ e1 in
    Tightens-trans start a d (apply_layer-Tightens org o start a s1) (
      Tightens-trans a b d (apply_layer-Tightens profile p a b s2)
        (apply_layer-Tightens workflow w b d s3))

sealed-resolved :
    (d : Draft) (o : Option String) (r : Resolved)
    → sealed d o ≡ resolved r
    → (d.effective ≡ r.effective) × (d.overrides ≡ r.overrides) × (o ≡ some r.digest)
unfolding sealed
sealed-resolved d none r e = cc
sealed-resolved d (some digest) r e = (cc, cc, cc)

finish-resolved :
    (digest_of : Policy → Option String) (m : Result Draft) (r : Resolved)
    → finish digest_of m ≡ resolved r
    → (d : Draft) × (m ≡ ok d) × (sealed d (digest_of d.effective) ≡ resolved r)
unfolding finish
finish-resolved digest_of (failed f) r e = cc
finish-resolved digest_of (ok d) r e = (d, refl, e)

-- Where Compile succeeds, the platform layer sets every field; the effective policy allows no
-- permission, executor or notification class that the platform's does not, has the same keys in each
-- map with modes, ceilings and tier controls no weaker, the same reference, and the sandbox if the
-- platform has it; it is the platform's own if no override is recorded; and the digest is its digest.
pub compile-IsStricter :
    (digest_of : Policy → Option String) (p o pr w : LayerPolicy) (r : Resolved)
    → compile digest_of p o pr w ≡ resolved r
    → (ceiling : Policy) × (platform_effective p ≡ ok ceiling)
      × IsStricter ceiling r.effective
      × (r.overrides ≡ [] → r.effective ≡ ceiling)
      × (digest_of r.effective ≡ some r.digest)
unfolding compile
compile-IsStricter digest_of p o pr w r e =
    let (d, folded, last) = finish-resolved digest_of _ r e in
    let (ceiling, first, rest) = bind-ok (platform_effective p) (fold_layers o pr w) folded in
    let t = fold_layers-Tightens o pr w ceiling d rest in
    let (eff, ov, dig) = sealed-resolved d _ r last in
    (
      ceiling,
      first,
      subst (IsStricter ceiling) eff t.within,
      (λ n. sym eff ∙ t.silent (sym t.recorded ∙ ov ∙ n)),
      ap digest_of (sym eff) ∙ dig,
    )

-- ===== src/Deploy/Quota/Within.antt =====
-- Usage stays within the quotas of every profile.
use the_foundry.Prelude.{
  ℕ, ◌≤◌, ◌≡◌, ◌≢◌, ◌↔◌, ◌⊎◌, inl, inr, refl, subst, sym, ap, ◌∙◌, String, none, some, List, arith,
  lookup, lookup_or, insert, lookup-insert_same, lookup-insert_other, String-cases, Option-cases,
}
use the_foundry.Deploy.Quota.{
  ProfileQuota, Usage, unused, unknown_profile, plus, minus, check_quota, acquire_over, acquire,
  release,
}

-- No maximum, or one that is not exceeded.
abbrev pub IsBelow : ℕ → ℕ → Type 0
IsBelow used max = (max ≡ 0) ⊎ (used ≤ max)

pub record Fits (quota : ProfileQuota) (used : Usage) : Type 0 where
  pub workflows : IsBelow used.workflows quota.max_workflows
  pub runners : IsBelow used.runners quota.max_runners
  pub admissions : IsBelow used.admissions quota.max_admissions
  pub missions : IsBelow used.missions quota.max_active_missions

check_quota-none :
    (quota : ProfileQuota) (used delta : Usage)
    → (check_quota (some quota) used delta ≡ none) ↔ Fits quota (plus used delta)
unfolding check_quota plus
check_quota-none quota used delta = (
  λ e. record {
    workflows = ground arith;
    runners = ground arith;
    admissions = ground arith;
    missions = ground arith;
  },
  λ f. ground (arith, f.workflows, f.runners, f.admissions, f.missions),
)

check_quota-unknown : (used delta : Usage) → check_quota none used delta ≡ some unknown_profile
unfolding check_quota
check_quota-unknown used delta = refl

Fits-minus :
    (quota : ProfileQuota) (used delta : Usage) → Fits quota used → Fits quota (minus used delta)
unfolding minus
Fits-minus quota used delta f = record {
  workflows = ground (arith, f.workflows);
  runners = ground (arith, f.runners);
  admissions = ground (arith, f.admissions);
  missions = ground (arith, f.missions);
}

module _ (quotas : List (String × ProfileQuota)) where
  -- Every profile with a quota is within it.
  abbrev pub IsWithin : List (String × Usage) → Type 0
  IsWithin usage =
      (profile : String) (quota : ProfileQuota)
      → lookup profile quotas ≡ some quota
      → Fits quota (lookup_or unused profile usage)

  stored :
      (profile other : String) (used : Usage) (usage : List (String × Usage)) (quota : ProfileQuota)
      → (other ≡ profile → Fits quota used)
      → Fits quota (lookup_or unused other usage)
      → Fits quota (lookup_or unused other (insert profile used usage))
  unfolding lookup_or
  stored profile other used usage quota new old = elim (String-cases other profile) [
    | inl same ↦
        let found : lookup other (insert profile used usage) ≡ some used =
          ap (λ k. lookup k (insert profile used usage)) same
          ∙ lookup-insert_same profile used usage in
        rw found (new same)
    | inr apart ↦ rw (lookup-insert_other other profile used usage apart) old
  ]

  the_quota :
      {profile : String} {q quota : ProfileQuota} (other : String)
      → other ≡ profile
      → lookup profile quotas ≡ some quota
      → lookup other quotas ≡ some q
      → quota ≡ q
  the_quota other same found f = cc (same, found, f)

  -- Acquiring succeeds exactly when the profile has a quota that the sum fits; where it fails,
  -- nothing is changed; and usage that was within the quotas of every profile stays so.
  pub acquire-IsWithin :
      (profile : String) (delta : Usage) (usage : List (String × Usage))
      → let (answer, after) = acquire quotas profile delta usage in
        ((answer ≡ none) ↔ (
          (quota : ProfileQuota) × (lookup profile quotas ≡ some quota)
          × Fits quota (plus (lookup_or unused profile usage) delta)))
        × (answer ≢ none → after ≡ usage)
        × (IsWithin usage → IsWithin after)
  unfolding acquire acquire_over
  acquire-IsWithin profile delta usage = elim (Option-cases (lookup profile quotas)) [
    | inl unknown ↦
        rw (unknown, check_quota-unknown (lookup_or unused profile usage) delta)
          ((λ e. cc, λ x. cc x.1), (λ n. refl), λ w. w)
    | inr (quota, found) ↦
        let used = lookup_or unused profile usage in
        let spec = check_quota-none quota used delta in
        elim (Option-cases (check_quota (some quota) used delta)) [
          | inl fits ↦
              let next : Fits quota (plus used delta) = spec.0 fits in
              rw (found, fits)
                (
                  (λ e. (quota, refl, next), λ x. refl),
                  (λ n. absurd (n refl)),
                  λ w other q f.
                      stored profile other (plus used delta) usage q
                        (λ same.
                          subst (λ z. Fits z (plus used delta)) (the_quota other same found f) next)
                        (w other q f),
                )
          | inr (e, over) ↦
              rw (found, over)
                (
                  (
                    λ n. cc,
                    λ x. cc (over, spec.1 (subst (λ z. Fits z (plus used delta)) (cc x.1) x.2)),
                  ),
                  (λ n. refl),
                  λ w. w,
                )
        ]
  ]

  -- Releasing keeps usage that was within the quotas of every profile within them.
  pub release-IsWithin :
      (profile : String) (delta : Usage) (usage : List (String × Usage))
      → IsWithin usage
      → IsWithin (release profile delta usage)
  unfolding release
  release-IsWithin profile delta usage within other quota found =
      stored profile other (minus (lookup_or unused profile usage) delta) usage quota
        (λ same.
          Fits-minus quota _ delta
            (within profile quota (ap (λ k. lookup k quotas) (sym same) ∙ found)))
        (within other quota found)

-- ===== src/Deploy/Gate/Exact.antt =====
-- What the deployment gate lets through, and what a deployment that it holds back waits for.
use the_foundry.Prelude.{
  ◌≡◌, ◌↔◌, ==-false→ne, ◌∙◌, sym, ap, ℕ, refl, Bool, true, false, not, ◌&&◌, ◌||◌, String, List,
  [], ◌∷◌, ◌==◌, arith, any, is_empty, sort_by, sort_strings, str_ltb, All, any-sort_by, Bool-cases,
  inl, inr,
}
use the_foundry.State.Registry.{running, waiting, known_reason, known_in}
use the_foundry.Recovery.Liveness.{Config, WorkflowSnapshot, healthy, classify, classify_healthy}
use the_foundry.Deploy.Gate.{GateInput, conditions, failures, evaluate_gate}

any-failures :
    (name : String) (cs : List (String × Bool))
    → any (λ f. f == name) (failures cs) ≡ any (λ c. c.0 == name && not c.1) cs
unfolding failures
any-failures name [] = refl
any-failures name ((n, true) ∷ cs) = ground (arith, any-failures name cs)
any-failures name ((n, false) ∷ cs) = ground (arith, any-failures name cs)

is_empty-any : (xs : List String) → is_empty xs ≡ not (any (λ x. true) xs)
is_empty-any [] = refl
is_empty-any (x ∷ xs) = refl

is_empty-failures :
    (cs : List (String × Bool)) → (is_empty (failures cs) ≡ true) ↔ All (λ c. c.1 ≡ true) cs
unfolding failures
is_empty-failures [] = (λ e. tt, λ a. refl)
is_empty-failures ((n, true) ∷ cs) =
    (λ e. (refl, (is_empty-failures cs).0 e), λ a. (is_empty-failures cs).1 a.1)
is_empty-failures ((n, false) ∷ cs) = (λ e. cc, λ a. cc a.0)

is_empty-sort_strings : (xs : List String) → is_empty (sort_strings xs) ≡ is_empty xs
unfolding sort_strings
is_empty-sort_strings xs =
    is_empty-any (sort_by str_ltb xs)
    ∙ ap not (any-sort_by str_ltb (λ x. true) xs)
    ∙ sym (is_empty-any xs)

any-sort_strings : (p : String → Bool) (xs : List String) → any p (sort_strings xs) ≡ any p xs
unfolding sort_strings
any-sort_strings p xs = any-sort_by str_ltb p xs

none-empty : (p : String → Bool) (xs : List String) → is_empty xs ≡ true → any p xs ≡ false
none-empty p [] e = refl
none-empty p (x ∷ xs) e = cc

gate_conditions :
    (i : GateInput)
    → (((evaluate_gate i).passed ≡ true) ↔ All (λ c. c.1 ≡ true) (conditions i))
      × ((name : String)
          → any (λ f. f == name) (evaluate_gate i).failed
            ≡ any (λ c. c.0 == name && not c.1) (conditions i))
unfolding evaluate_gate
gate_conditions i =
    let failed = failures (conditions i) in
    let sorted : is_empty (sort_strings failed) ≡ is_empty failed = is_empty-sort_strings failed in
    let exact = is_empty-failures (conditions i) in
    elim (Bool-cases (is_empty (sort_strings failed))) [
      | inl nothing ↦ rw nothing (
        (λ e. exact.0 (sym sorted ∙ nothing), λ a. refl),
        λ name.
            sym (none-empty (λ f. f == name) failed (sym sorted ∙ nothing))
            ∙ any-failures name (conditions i),
      )
      | inr some_ ↦ rw some_ (
        (λ e. cc, λ a. cc (exact.1 a, sorted, some_)),
        λ name. any-sort_strings (λ f. f == name) failed ∙ any-failures name (conditions i),
      )
    ]

or_false : (b : Bool) → (b || false) ≡ b
or_false true = refl
or_false false = refl

or_assoc : (a b c : Bool) → ((a || b) || c) ≡ (a || (b || c))
or_assoc true b c = refl
or_assoc false b c = refl

-- The gate passes exactly when all of its thirteen conditions hold, and a name is among the failed ones
-- exactly if it is the name of a condition that does not hold.
pub gate_exact :
    (i : GateInput)
    → (((evaluate_gate i).passed ≡ true) ↔ (
        (i.personal_profile ≡ true)
        × (i.deployment_target_allowlisted ≡ true)
        × (i.mission_readiness_complete ≡ true)
        × (i.spend_within_envelope ≡ true)
        × (i.deterministic_verification_passed ≡ true)
        × (i.synthetic_or_real_canary_passed ≡ true)
        × (i.rollback_rehearsed ≡ true)
        × (i.database_changes_reversible_or_backward_compatible ≡ true)
        × (i.no_regulated_data ≡ true)
        × (i.no_new_secret_scope ≡ true)
        × (i.no_authority_expansion ≡ true)
        × (i.health_checks_defined ≡ true)
        × (i.operation_reconciliation_enabled ≡ true)))
      × ((name : String)
          → any (λ f. f == name) (evaluate_gate i).failed ≡ (
              ("personal-profile" == name && not i.personal_profile)
              || ("deployment-target-allowlisted" == name && not i.deployment_target_allowlisted)
              || ("mission-readiness-complete" == name && not i.mission_readiness_complete)
              || ("spend-within-envelope" == name && not i.spend_within_envelope)
              || ("deterministic-verification-passed" == name
                  && not i.deterministic_verification_passed)
              || ("synthetic-or-real-canary-passed" == name
                  && not i.synthetic_or_real_canary_passed)
              || ("rollback-rehearsed" == name && not i.rollback_rehearsed)
              || ("database-changes-reversible-or-backward-compatible" == name
                  && not i.database_changes_reversible_or_backward_compatible)
              || ("no-regulated-data" == name && not i.no_regulated_data)
              || ("no-new-secret-scope" == name && not i.no_new_secret_scope)
              || ("no-authority-expansion" == name && not i.no_authority_expansion)
              || ("health-checks-defined" == name && not i.health_checks_defined)
              || ("operation-reconciliation-enabled" == name
                  && not i.operation_reconciliation_enabled)))
gate_exact i =
    let g = gate_conditions i in
    (
      (
        λ e.
            let (
              c1,
              (c2, (c3, (c4, (c5, (c6, (c7, (c8, (c9, (c10, (c11, (c12, (c13, _)))))))))))),
            ) =
              g.0.0 e in
            (c1, c2, c3, c4, c5, c6, c7, c8, c9, c10, c11, c12, c13),
        λ all.
            let (c1, c2, c3, c4, c5, c6, c7, c8, c9, c10, c11, c12, c13) = all in
            g.0.1
              (c1, (c2, (c3, (c4, (c5, (c6, (c7, (c8, (c9, (c10, (c11, (c12, (c13, tt))))))))))))),
      ),
      λ name. rw (g.1 name) (simp (or_false, or_assoc)),
    )

human_approval :
    (i : GateInput)
    → (evaluate_gate i).passed ≡ false
    → (evaluate_gate i).wait_reason ≡ "human-approval"
unfolding evaluate_gate
human_approval i shut = elim (Bool-cases (is_empty (sort_strings (failures (conditions i))))) [
  | inl nothing ↦ cc
  | inr some_ ↦ rw some_
]

known_human_approval : known_reason "human-approval" ≡ true
unfolding known_reason known_in
known_human_approval = refl

-- A deployment that does not pass waits for a human, for a reason that the registry has and that the
-- supervisor takes for a subscription: a workflow that waits for it is healthy.
pub gate_waits :
    (i : GateInput) (now : ℕ) (snap : WorkflowSnapshot) (cfg : Config)
    → (evaluate_gate i).passed ≡ false
    → snap.status ≡ waiting
    → snap.reason ≡ (evaluate_gate i).wait_reason
    → (known_reason (evaluate_gate i).wait_reason ≡ true) × (classify now snap cfg ≡ healthy)
gate_waits i now snap cfg shut parked why =
    let human : (evaluate_gate i).wait_reason ≡ "human-approval" = human_approval i shut in
    (
      ap known_reason human ∙ known_human_approval,
      (classify_healthy now snap cfg).1 (
        λ r. absurd (==-false→ne running waiting refl (sym r ∙ parked)),
        λ w. inr (rw (why ∙ human) refl),
      ),
    )

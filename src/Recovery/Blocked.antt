-- ===== src/Recovery/Blocked.antt =====
-- internal/recovery/blocked.go: the PROVEN_BLOCKED verdict on a failure history.
use the_foundry.Prelude.{
  ◌≡◌, ◌↔◌, ◌⊎◌, inl, inr, refl, Bool, true, false, not, String, Option, none, some, List, [], ◌∷◌,
  ◌==◌, arith, All, Option-cases, Bool-cases, is_empty, if◌then◌else◌,
}
use mathlib.Core.List.{Memᴰ}
use the_foundry.State.Registry.{ResultCode, proven_blocked}
use the_foundry.Recovery.Signature.{FailureSignature}

pub record ProvenBlocked : Type 0 where
  pub result_code : ResultCode
  pub reason : String
  pub next_action : String
  pub evidence_refs : List String

-- `true` is the source's nil error.
unfoldable pub validate : ProvenBlocked → Bool
validate b =
    if not (b.result_code == proven_blocked)
    then false
    else if is_empty b.evidence_refs
    then false
    else if b.next_action == ""
    then false
    else true

abbrev pub missing_dependency_blocked : FailureSignature → ProvenBlocked
missing_dependency_blocked sig = record {
  result_code = proven_blocked;
  reason = "missing-dependency";
  next_action =
      "operator: resolve the missing dependency (see evidence refs) and resubmit the plan";
  evidence_refs = sig.evidence_refs;
}

abbrev pub contradictory_spec_blocked : FailureSignature → ProvenBlocked
contradictory_spec_blocked sig = record {
  result_code = proven_blocked;
  reason = "contradictory-spec";
  next_action =
      "operator: the plan's acceptance criteria contradict each other (see evidence refs) — revise the spec and resubmit";
  evidence_refs = sig.evidence_refs;
}

-- The `switch` of the loop; `none` is its `continue`.
unfoldable pub candidate : FailureSignature → Option ProvenBlocked
candidate sig =
    if sig.missing_dependency
    then some (missing_dependency_blocked sig)
    else if sig.contradictory_spec
    then some (contradictory_spec_blocked sig)
    else none

-- A candidate is returned if it validates, and is passed over otherwise.
unfoldable pub keep : Option ProvenBlocked → Option ProvenBlocked
keep none = none
keep (some c) = if validate c then some c else none

unfoldable pub or_later : Option ProvenBlocked → Option ProvenBlocked → Option ProvenBlocked
or_later none later = later
or_later (some b) later = some b

unfoldable pub evaluate : List FailureSignature → Option ProvenBlocked
unfolding or_later keep candidate
evaluate [] = none
evaluate (sig ∷ history) = or_later (keep (candidate sig)) (evaluate history)

-- A signature that proves impossibility: flagged, and with evidence.
abbrev pub Proves : FailureSignature → Type 0
Proves sig =
    ((sig.missing_dependency ≡ true) ⊎ (sig.contradictory_spec ≡ true))
    × (is_empty sig.evidence_refs ≡ false)

-- A verdict answers for a signature.
pub record Substantiates (b : ProvenBlocked) (sig : FailureSignature) : Type 0 where
  pub proves : Proves sig
  pub valid : validate b ≡ true
  pub same_evidence : b.evidence_refs ≡ sig.evidence_refs
  pub reason_matches :
      b.reason ≡ (if sig.missing_dependency then "missing-dependency" else "contradictory-spec")

-- The two verdicts are valid exactly when they carry evidence.
missing-valid :
    (sig : FailureSignature)
    → validate (missing_dependency_blocked sig) ≡ not (is_empty sig.evidence_refs)
unfolding validate
missing-valid sig = ground arith

contradictory-valid :
    (sig : FailureSignature)
    → validate (contradictory_spec_blocked sig) ≡ not (is_empty sig.evidence_refs)
unfolding validate
contradictory-valid sig = ground arith

candidate-Substantiates :
    (sig : FailureSignature) (b : ProvenBlocked)
    → keep (candidate sig) ≡ some b
    → Substantiates b sig
unfolding keep candidate
candidate-Substantiates sig b h = record {
  proves = ground (arith, missing-valid sig, contradictory-valid sig);
  valid = ground arith;
  same_evidence = ground arith;
  reason_matches = ground arith;
}

candidate-none : (sig : FailureSignature) → (keep (candidate sig) ≡ none) ↔ (¬ Proves sig)
unfolding keep candidate
candidate-none sig =
    (λ h p. ground (arith, missing-valid sig, contradictory-valid sig), λ n. unproven n)
  where
    unproven : ¬ Proves sig → keep (candidate sig) ≡ none
    unproven n = elim (Bool-cases (is_empty sig.evidence_refs)) [
      | inl bare ↦ ground (arith, missing-valid sig, contradictory-valid sig)
      | inr evidenced ↦ elim (Bool-cases sig.missing_dependency) [
        | inl m ↦ absurd (n (inl m, evidenced))
        | inr m ↦ elim (Bool-cases sig.contradictory_spec) [
          | inl c ↦ absurd (n (inr c, evidenced))
          | inr c ↦ rw (m, c)
        ]
      ]
    ]

-- A PROVEN_BLOCKED verdict answers for a failure in the history that is flagged as impossible and
-- carries evidence; the verdict is valid and carries that evidence.
pub evaluate-some :
    (h : List FailureSignature) (b : ProvenBlocked)
    → evaluate h ≡ some b
    → (sig : FailureSignature) × Memᴰ sig h × Substantiates b sig
unfolding evaluate
evaluate-some [] b e = cc
evaluate-some (sig ∷ h) b e = elim (Option-cases (keep (candidate sig))) [
  | inl nothing ↦ let (s, m, ok) = evaluate-some h b (rw nothing at e) in (s, Memᴰ.tail m, ok)
  | inr (c, found) ↦ (sig, Memᴰ.head refl, candidate-Substantiates sig b (rw found (rw found at e)))
]

-- There is no verdict exactly when no failure in the history is both flagged and evidenced.
pub evaluate-none : (h : List FailureSignature) → (evaluate h ≡ none) ↔ All (λ sig. ¬ Proves sig) h
unfolding evaluate
evaluate-none [] = (λ e. tt, λ a. refl)
evaluate-none (sig ∷ h) = elim (Option-cases (keep (candidate sig))) [
  | inl nothing ↦
      rw nothing
        (λ e. ((candidate-none sig).0 nothing, (evaluate-none h).0 e), λ a. (evaluate-none h).1 a.1)
  | inr (c, found) ↦ rw found (λ e. cc, λ a. cc ((candidate-none sig).1 a.0))
]

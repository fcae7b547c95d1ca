-- ===== src/State/Codes.antt =====
-- What the result-code registry of internal/state lets through, and the deprecated alias.
use the_foundry.Prelude.{
  ◌≡◌, ◌≢◌, ◌↔◌, ◌⊎◌, inl, inr, refl, Bool, true, String, none, some, List, [], ◌∷◌, ◌==◌, eq_iff,
  arith, all, Option-cases, Bool-cases,
}
use the_foundry.State.Registry.{
  Status, ResultCode, succeeded, handoff_ready, deprecated_alias, result_code_registry,
  find_result_code, known_result_code, normalize_result_code,
}
use the_foundry.State.{Transition, is_terminal, validate}
use the_foundry.State.Graph.{validate-IsAccepted}

-- A scan of a registry finds only statuses that pass a test which every entry's status passes.
find_result_code-all :
    (p : Status → Bool) (r : List (ResultCode × Status)) (c : ResultCode) (s : Status)
    → all (λ e. p e.1) r ≡ true
    → find_result_code r c ≡ some s
    → p s ≡ true
unfolding find_result_code
find_result_code-all p [] c s h e = cc
find_result_code-all p ((code, status) ∷ r) c s h e = ground (arith, find_result_code-all p r c s)

known_result_code_terminal :
    (c : ResultCode) {s : Status} → known_result_code c ≡ some s → is_terminal s ≡ true
unfolding known_result_code is_terminal
known_result_code_terminal c {s} e =
    find_result_code-all is_terminal result_code_registry c s refl e

-- An accepted transition that carries a result code ends the workflow.
pub validate-result_terminal :
    (t : Transition) (from to : Status)
    → validate t from to ≡ none
    → t.result_code ≢ ""
    → is_terminal to ≡ true
validate-result_terminal t from to v set = elim ((validate-IsAccepted t from to).0 v).registered [
  | inl unset ↦ absurd (set unset)
  | inr known ↦ known_result_code_terminal t.result_code known
]

alias_unregistered : known_result_code deprecated_alias ≡ none
unfolding known_result_code
alias_unregistered = refl

-- What a client may rely on in a normalized code.
abbrev pub IsSound : ResultCode → Type 0
IsSound c =
    ((status : Status) × (known_result_code c ≡ some status))
    × (c ≢ deprecated_alias)
    × (normalize_result_code c ≡ some c)

normalize-cases :
    (s c : String)
    → normalize_result_code s ≡ some c
    → (c ≡ handoff_ready) ⊎ ((s ≡ c) × (s ≢ deprecated_alias) × (known_result_code s ≢ none))
unfolding normalize_result_code
normalize-cases s c h = elim (Bool-cases (s == deprecated_alias)) [
  | inl old ↦ inl (ground arith)
  | inr other ↦ inr (ground arith, ground (arith, eq_iff s deprecated_alias), ground arith)
]

handoff_registered : known_result_code handoff_ready ≡ some succeeded
unfolding known_result_code
handoff_registered = refl

registered-not-alias : (c : String) → known_result_code c ≢ none → c ≢ deprecated_alias
registered-not-alias c h e = h (rw e alias_unregistered)

normalize_registered :
    (c : ResultCode) (s : Status) → known_result_code c ≡ some s → normalize_result_code c ≡ some c
unfolding normalize_result_code
normalize_registered c s known =
    ground (arith, known, eq_iff c deprecated_alias, alias_unregistered)

registered-Sound : (c : ResultCode) (s : Status) → known_result_code c ≡ some s → IsSound c
registered-Sound c s known =
    ((s, known), registered-not-alias c (λ e. cc), normalize_registered c s known)

-- Normalization answers only with registered codes, never with the deprecated alias, and leaves its
-- own answers alone.
pub normalize-IsSound : (s : String) (c : ResultCode) → normalize_result_code s ≡ some c → IsSound c
normalize-IsSound s c h = elim (normalize-cases s c h) [
  | inl ready ↦ rw ready (registered-Sound handoff_ready succeeded handoff_registered)
  | inr (same, p, known) ↦ elim (Option-cases (known_result_code s)) [
    | inl unknown ↦ absurd (known unknown)
    | inr (status, found) ↦ rw same at (registered-Sound s status found)
  ]
]

-- A text is refused exactly when it is neither the deprecated alias nor a registered code.
pub normalize-none :
    (s : String)
    → (normalize_result_code s ≡ none) ↔ ((s ≢ deprecated_alias) × (known_result_code s ≡ none))
unfolding normalize_result_code
normalize-none s = ground (arith, eq_iff s deprecated_alias)

-- ===== src/Kernel/Lease/Retired.antt =====
-- What a token that was replaced can no longer do.
use the_foundry.Prelude.{
  ℕ, ◌≡◌, ◌≢◌, ◌⊎◌, inl, inr, sym, ap, ◌∙◌, ◌==◌, false, String, Option, none, some, List, [], ◌∷◌,
  arith, All, lookup, insert, delete, lookup-insert_same, lookup-delete_same, lookup-delete_other,
  String-cases, Option-cases, Bool-cases, eq_iff,
}
use the_foundry.Kernel.Lease.{
  Lease, Leases, granted, acquire, check_over, check, release_over, release, Operation, acquiring,
  releasing, step, steps,
}
use the_foundry.Kernel.Lease.Fencing.{granted_stored}
use the_foundry.Kernel.Lease.Moves.{stored, elsewhere-acquire}

-- The resource is free, or its token is another one.
abbrev IsRetired : String → String → Leases → Type 0
IsRetired resource token leases = (l : Lease) → lookup resource leases ≡ some l → l.token ≢ token

-- The operation does not draw this token again.
abbrev pub Redraws : String → Operation → Type 0
Redraws token (acquiring now fresh resource holder ttl) = fresh ≡ some token
Redraws token (releasing resource other) = ⊥

looked : (a b : Lease) (o : Option Lease) → o ≡ some a → o ≡ some b → a ≡ b
looked a b o p q = cc

-- A release adds nothing.
released :
    (resource token other : String) (leases : Leases) (l : Lease)
    → lookup other (release resource token leases) ≡ some l
    → lookup other leases ≡ some l
unfolding release release_over
released resource token other leases l found = elim (Option-cases (lookup resource leases)) [
  | inl absent ↦ rw absent at found
  | inr (lease, had) ↦ elim (Bool-cases (lease.token == token)) [
    | inr kept ↦ rw (had, kept) at found
    | inl mine ↦
        let left : lookup other (delete resource leases) ≡ some l = rw (had, mine) at found in
        elim (String-cases other resource) [
          | inl same ↦
              let gone : lookup other (delete resource leases) ≡ none =
                ap (λ k. lookup k (delete resource leases)) same
                ∙ lookup-delete_same resource leases in
              cc (left, gone)
          | inr apart ↦ sym (lookup-delete_other other resource leases apart) ∙ left
        ]
  ]
]

step-IsRetired :
    (resource token : String) (op : Operation) (leases : Leases)
    → IsRetired resource token leases
    → ¬ Redraws token op
    → IsRetired resource token (step op leases)
unfolding step
step-IsRetired resource token (acquiring now fresh r holder ttl) leases gone new l found =
    elim (String-cases resource r) [
      | inr apart ↦
          gone l (sym (elsewhere-acquire now fresh r holder resource ttl leases apart) ∙ found)
      | inl same ↦
          unfold acquire in
          elim (stored (lookup r leases) now fresh r holder ttl leases) [
            | inl kept ↦ gone l (sym (ap (lookup resource) kept) ∙ found)
            | inr (made, stored_, why) ↦
                let there : lookup resource (insert r made leases) ≡ some made =
                  ap (λ k. lookup k (insert r made leases)) same
                  ∙ lookup-insert_same r made leases in
                let is_made : made ≡ l =
                  looked made l _ there (sym (ap (lookup resource) stored_) ∙ found) in
                λ e. fits made same (ap (λ x. x.token) is_made ∙ e) why
          ]
    ]
  where
    fits :
        (made : Lease)
        → resource ≡ r
        → made.token ≡ token
        → (fresh ≡ some made.token)
          ⊎ ((old : Lease) × (lookup r leases ≡ some old) × (made.token ≡ old.token))
        → ⊥
    fits _ same e (inl drawn) = new (drawn ∙ ap some e)
    fits _ same e (inr (old, had, again)) =
        gone old (ap (λ k. lookup k leases) same ∙ had) (sym again ∙ e)
step-IsRetired resource token (releasing r other) leases gone new l found =
    gone l (released r other resource leases l found)

steps-IsRetired :
    (resource token : String) (ops : List Operation) (leases : Leases)
    → IsRetired resource token leases
    → All (λ op. ¬ Redraws token op) ops
    → IsRetired resource token (steps ops leases)
unfolding steps
steps-IsRetired resource token [] leases gone new = gone
steps-IsRetired resource token (op ∷ ops) leases gone new =
    steps-IsRetired resource token ops (step op leases)
      (step-IsRetired resource token op leases gone new.0) new.1

-- Fencing: once a resource has been granted under another token, an old token never passes the
-- check again, at any time and whatever operations follow, as long as none draws it anew.
pub superseded_rejected :
    (now : ℕ) (fresh : Option String) (resource holder : String) (ttl : ℕ) (leases : Leases)
    (lease : Lease) (old : String) (ops : List Operation) (at : ℕ)
    → (acquire now fresh resource holder ttl leases).0 ≡ granted lease
    → lease.token ≢ old
    → All (λ op. ¬ Redraws old op) ops
    → check at resource old (steps ops (acquire now fresh resource holder ttl leases).1) ≡ false
unfolding acquire check check_over
superseded_rejected now fresh resource holder ttl leases lease old ops at g other new =
    elim (Option-cases (lookup resource (steps ops start))) [
      | inl free ↦ rw free
      | inr (l, found) ↦ rw found (ground (arith, eq_iff l.token old, last l found))
    ]
  where
    start : Leases
    start = (acquire now fresh resource holder ttl leases).1

    kept : lookup resource start ≡ some lease
    kept =
        ap (lookup resource)
          (granted_stored (lookup resource leases) now fresh resource holder ttl leases lease g).2
        ∙ lookup-insert_same resource lease leases

    first : IsRetired resource old start
    first l found e = other (ap (λ x. x.token) (looked lease l _ kept found) ∙ e)

    last : IsRetired resource old (steps ops start)
    last = steps-IsRetired resource old ops start first new

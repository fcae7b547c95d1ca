-- ===== src/Kernel/Lease/Fencing.antt =====
-- What a lease promises to its holder.
use the_foundry.Prelude.{
  ℕ, ◌+◌, ◌<◌, ◌≡◌, ◌≢◌, ◌⊎◌, inl, inr, refl, sym, ap, ◌∙◌, ◌==◌, true, String, Option, none, some,
  List, [], ◌∷◌, arith, All, lookup, insert, lookup-insert_same, String-cases, Bool-cases, eq_iff,
  ltb,
}
use the_foundry.Kernel.Lease.{
  Lease, Leases, granted, grant, acquire_over, acquire, check_over, check, Operation, acquiring,
  releasing, step, steps,
}
use the_foundry.Kernel.Lease.Moves.{
  elsewhere-acquire, elsewhere-release, refused-acquire, refused-release,
}

-- An operation that cannot end a lease: it is on another resource, or it is an attempt by another
-- holder before the expiry or a release of another token.
abbrev pub Spares : String → Lease → Operation → Type 0
Spares r lease (acquiring now fresh resource holder ttl) =
    (resource ≢ r) ⊎ ((holder ≢ lease.holder) × (now < lease.expires_at))
Spares r lease (releasing resource token) = (resource ≢ r) ⊎ (token ≢ lease.token)

-- A live lease outlives every operation that spares it.
spared-step :
    (r : String) (lease : Lease) (op : Operation) (leases : Leases)
    → lookup r leases ≡ some lease
    → Spares r lease op
    → lookup r (step op leases) ≡ some lease
unfolding step
spared-step r lease (acquiring now fresh resource holder ttl) leases found (inl elsewhere) =
    elsewhere-acquire now fresh resource holder r ttl leases (λ e. elsewhere (sym e)) ∙ found
spared-step r lease (acquiring now fresh resource holder ttl) leases found (inr (other, live)) =
    elim (String-cases resource r) [
      | inl same ↦
          let here : lookup resource leases ≡ some lease = ap (λ r. lookup r leases) same ∙ found in
          ap (lookup r) (refused-acquire lease now fresh resource holder ttl leases here other live)
          ∙ found
      | inr apart ↦
          elsewhere-acquire now fresh resource holder r ttl leases (λ e. apart (sym e)) ∙ found
    ]
spared-step r lease (releasing resource token) leases found (inl elsewhere) =
    elsewhere-release resource token r leases (λ e. elsewhere (sym e)) ∙ found
spared-step r lease (releasing resource token) leases found (inr other) =
    elim (String-cases resource r) [
      | inl same ↦
          let here : lookup resource leases ≡ some lease = ap (λ r. lookup r leases) same ∙ found in
          ap (lookup r) (refused-release lease resource token leases here other) ∙ found
      | inr apart ↦ elsewhere-release resource token r leases (λ e. apart (sym e)) ∙ found
    ]

spared :
    (r : String) (lease : Lease) (ops : List Operation) (leases : Leases)
    → lookup r leases ≡ some lease
    → All (Spares r lease) ops
    → lookup r (steps ops leases) ≡ some lease
unfolding steps
spared r lease [] leases found s = found
spared r lease (op ∷ ops) leases found s =
    spared r lease ops (step op leases) (spared-step r lease op leases found s.0) s.1

-- The lease that is answered is the one that was stored.
answered :
    (made lease : Lease) (holder resource : String) (at : ℕ) (leases : Leases)
    → made.holder ≡ holder
    → made.expires_at ≡ at
    → granted made ≡ granted lease
    → (lease.holder ≡ holder)
      × (lease.expires_at ≡ at)
      × (insert resource made leases ≡ insert resource lease leases)
answered made lease holder resource at leases h e g =
    let same : made ≡ lease = cc in
    (
      ap (λ l. l.holder) (sym same) ∙ h,
      ap (λ l. l.expires_at) (sym same) ∙ e,
      ap (λ l. insert resource l leases) same,
    )

grant_stored :
    (now : ℕ) (fresh : Option String) (resource holder : String) (ttl : ℕ) (leases : Leases)
    (lease : Lease)
    → (grant now fresh resource holder ttl leases).0 ≡ granted lease
    → (lease.holder ≡ holder)
      × (lease.expires_at ≡ now + ttl)
      × ((grant now fresh resource holder ttl leases).1 ≡ insert resource lease leases)
unfolding grant
grant_stored now none resource holder ttl leases lease g = cc
grant_stored now (some token) resource holder ttl leases lease g =
    answered _ lease holder resource (now + ttl) leases refl refl g

pub granted_stored :
    (o : Option Lease) (now : ℕ) (fresh : Option String) (resource holder : String) (ttl : ℕ)
    (leases : Leases) (lease : Lease)
    → (acquire_over o now fresh resource holder ttl leases).0 ≡ granted lease
    → (lease.holder ≡ holder)
      × (lease.expires_at ≡ now + ttl)
      × ((acquire_over o now fresh resource holder ttl leases).1 ≡ insert resource lease leases)
unfolding acquire_over
granted_stored none now fresh resource holder ttl leases lease g =
    grant_stored now fresh resource holder ttl leases lease g
granted_stored (some existing) now fresh resource holder ttl leases lease g =
    elim (Bool-cases (ltb now existing.expires_at)) [
      | inl live ↦ elim (Bool-cases (existing.holder == holder)) [
        | inl own ↦
            rw (live, own)
              (answered (record existing { expires_at = now + ttl }) lease holder resource
                (now + ttl) leases ((eq_iff existing.holder holder).0 own) refl
                (rw (live, own) at g))
        | inr other ↦ cc (rw (live, other) at g)
      ]
      | inr expired ↦
          rw expired (grant_stored now fresh resource holder ttl leases lease (rw expired at g))
    ]

-- A granted lease guards its holder until it expires: whatever operations follow that are on other
-- resources, by other holders before the expiry, or releases of other tokens, its token passes the
-- check at every time before the expiry.
pub granted_guards :
    (now : ℕ) (fresh : Option String) (resource holder : String) (ttl : ℕ) (leases : Leases)
    (lease : Lease) (ops : List Operation) (at : ℕ)
    → (acquire now fresh resource holder ttl leases).0 ≡ granted lease
    → All (Spares resource lease) ops
    → at < now + ttl
    → check at resource lease.token (steps ops (acquire now fresh resource holder ttl leases).1)
      ≡ true
unfolding acquire check check_over
granted_guards now fresh resource holder ttl leases lease ops at g spares early =
    let (own, until, kept) =
      granted_stored (lookup resource leases) now fresh resource holder ttl leases lease g in
    let found = ap (lookup resource) kept ∙ lookup-insert_same resource lease leases in
    rw (spared resource lease ops _ found spares)
      (ground (arith, until, eq_iff lease.token lease.token))

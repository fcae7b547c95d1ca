-- ===== src/Kernel/Lease/Moves.antt =====
-- What one operation changes in the map of leases.
use the_foundry.Prelude.{
  ℕ, ◌<◌, ◌≡◌, ◌≢◌, ◌⊎◌, inl, inr, refl, ap, ◌∙◌, ◌==◌, String, Option, none, some, arith, lookup,
  insert, lookup-insert_other, lookup-delete_other, Option-cases, Bool-cases, eq_iff, ltb,
}
use the_foundry.Kernel.Lease.{Lease, Leases, grant, acquire_over, acquire, release_over, release}

-- What an attempt leaves in the map: nothing new, or a lease under the resource, whose token is fresh
-- or that of the live lease.
pub stored :
    (o : Option Lease) (now : ℕ) (fresh : Option String) (resource holder : String) (ttl : ℕ)
    (leases : Leases)
    → ((acquire_over o now fresh resource holder ttl leases).1 ≡ leases)
      ⊎ ((l : Lease) × ((acquire_over o now fresh resource holder ttl leases).1
            ≡ insert resource l leases)
          × ((fresh ≡ some l.token) ⊎ ((old : Lease) × (o ≡ some old) × (l.token ≡ old.token))))
unfolding acquire_over grant
stored none now none resource holder ttl leases = inl refl
stored none now (some token) resource holder ttl leases = inr (_, refl, inl refl)
stored (some existing) now fresh resource holder ttl leases =
    elim (Bool-cases (ltb now existing.expires_at)) [
      | inl live ↦ elim (Bool-cases (existing.holder == holder)) [
        | inl own ↦ rw (live, own) (inr (_, refl, inr (existing, refl, refl)))
        | inr other ↦ rw (live, other) (inl refl)
      ]
      | inr expired ↦ rw expired (granting fresh)
    ]
  where
    granting :
        (fresh : Option String)
        → ((grant now fresh resource holder ttl leases).1 ≡ leases)
          ⊎ ((l : Lease) × ((grant now fresh resource holder ttl leases).1
                ≡ insert resource l leases)
              × ((fresh ≡ some l.token)
                  ⊎ ((old : Lease) × (some existing ≡ some old) × (l.token ≡ old.token))))
    granting none = inl refl
    granting (some token) = inr (_, refl, inl refl)

pub elsewhere-acquire :
    (now : ℕ) (fresh : Option String) (resource holder other : String) (ttl : ℕ) (leases : Leases)
    → other ≢ resource
    → lookup other (acquire now fresh resource holder ttl leases).1 ≡ lookup other leases
unfolding acquire
elsewhere-acquire now fresh resource holder other ttl leases apart =
    elim (stored (lookup resource leases) now fresh resource holder ttl leases) [
      | inl same ↦ ap (lookup other) same
      | inr (l, new, why) ↦
          ap (lookup other) new ∙ lookup-insert_other other resource l leases apart
    ]

pub elsewhere-release :
    (resource token other : String) (leases : Leases)
    → other ≢ resource
    → lookup other (release resource token leases) ≡ lookup other leases
unfolding release release_over
elsewhere-release resource token other leases apart = elim (Option-cases (lookup resource leases)) [
  | inl absent ↦ rw absent
  | inr (l, found) ↦ rw found (ground (arith, lookup-delete_other other resource leases apart))
]

pub refused-acquire :
    (lease : Lease) (now : ℕ) (fresh : Option String) (resource holder : String) (ttl : ℕ)
    (leases : Leases)
    → lookup resource leases ≡ some lease
    → holder ≢ lease.holder
    → now < lease.expires_at
    → (acquire now fresh resource holder ttl leases).1 ≡ leases
unfolding acquire acquire_over
refused-acquire lease now fresh resource holder ttl leases found other live =
    rw found (ground (arith, eq_iff lease.holder holder))

pub refused-release :
    (lease : Lease) (resource token : String) (leases : Leases)
    → lookup resource leases ≡ some lease
    → token ≢ lease.token
    → release resource token leases ≡ leases
unfolding release release_over
refused-release lease resource token leases found other =
    rw found (ground (arith, eq_iff lease.token token))

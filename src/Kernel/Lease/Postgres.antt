-- ===== src/Kernel/Lease/Postgres.antt =====
-- PGLeaseStore of internal/kernel/lease.go: the row that the UPSERT of Acquire leaves and returns, as
-- PostgreSQL documents ON CONFLICT DO UPDATE, beside the store in memory. The table is a map from a
-- resource to its row. `db_now` is now() of the database, and `now` the clock of the program. A
-- failing query is not modelled.
use the_foundry.Prelude.{
  ℕ, ◌+◌, ◌<◌, ◌≡◌, ◌≢◌, refl, Bool, true, false, not, ◌&&◌, ◌||◌, String, Option, none, some, ◌==◌,
  arith, lookup, insert, ltb, eq_iff, lookup-insert_same, if◌then◌else◌,
}
use the_foundry.Kernel.Lease.{
  Lease, Leases, Acquired, granted, lease_held, no_token, grant, acquire_over, acquire, check_over,
  check,
}

-- The row after the statement, from the one that conflicts with it.
unfoldable pub upsert : ℕ → Lease → Option Lease → Lease
upsert db_now excluded none = excluded
upsert db_now excluded (some row) =
    if row.holder == excluded.holder || ltb row.expires_at db_now then excluded else row

unfoldable pub returned : String → Lease → Acquired
returned holder row = if not (row.holder == holder) then lease_held row.holder else granted row

unfoldable pub pg_acquire : ℕ → ℕ → Option String → String → String → ℕ → Leases → Acquired × Leases
unfolding upsert returned
pg_acquire now db_now none resource holder ttl leases = (no_token, leases)
pg_acquire now db_now (some token) resource holder ttl leases =
    let excluded : Lease = record {
      resource = resource;
      token = token;
      holder = holder;
      expires_at = now + ttl;
    } in
    let row = upsert db_now excluded (lookup resource leases) in
    (returned holder row, insert resource row leases)

abbrev pub is_granted : Acquired → Bool
is_granted (granted lease) = true
is_granted (lease_held holder) = false
is_granted no_token = false

agrees :
    (o : Option Lease) (now : ℕ) (token resource holder : String) (ttl : ℕ) (leases : Leases)
    → ((lease : Lease) → o ≡ some lease → lease.expires_at ≢ now)
    → is_granted (acquire_over o now (some token) resource holder ttl leases).0
      ≡ is_granted (
          returned holder (
            upsert now
              (record {
                resource = resource;
                token = token;
                holder = holder;
                expires_at = now + ttl;
              })
              o))
unfolding acquire_over grant upsert returned
agrees none now token resource holder ttl leases off = ground (arith, eq_iff holder holder)
agrees (some row) now token resource holder ttl leases off =
    ground (arith, eq_iff row.holder holder, eq_iff holder holder, off row refl)

-- On one clock, where a token is drawn, and unless the lease expires at this very instant, the
-- store in memory and the PostgreSQL store grant in the same cases.
pub stores_agree :
    (now : ℕ) (token resource holder : String) (ttl : ℕ) (leases : Leases)
    → ((lease : Lease) → lookup resource leases ≡ some lease → lease.expires_at ≢ now)
    → is_granted (acquire now (some token) resource holder ttl leases).0
      ≡ is_granted (pg_acquire now now (some token) resource holder ttl leases).0
unfolding acquire pg_acquire
stores_agree now token resource holder ttl leases off =
    agrees (lookup resource leases) now token resource holder ttl leases off

renews :
    (now : ℕ) (token resource : String) (ttl : ℕ) (leases : Leases) (lease : Lease)
    → lookup resource leases ≡ some lease
    → now < lease.expires_at
    → (acquire now (some token) resource lease.holder ttl leases).1
      ≡ insert resource (record lease { expires_at = now + ttl }) leases
unfolding acquire acquire_over
renews now token resource ttl leases lease found live =
    rw found (ground (arith, eq_iff lease.holder lease.holder))

replaces :
    (now db_now : ℕ) (token resource : String) (ttl : ℕ) (leases : Leases) (lease : Lease)
    → lookup resource leases ≡ some lease
    → (pg_acquire now db_now (some token) resource lease.holder ttl leases).1
      ≡ insert resource
          (record {
            resource = resource;
            token = token;
            holder = lease.holder;
            expires_at = now + ttl;
          })
          leases
unfolding pg_acquire upsert
replaces now db_now token resource ttl leases lease found =
    rw found (ground (arith, eq_iff lease.holder lease.holder))

check_inserted :
    (at : ℕ) (resource token : String) (lease : Lease) (leases : Leases)
    → check at resource token (insert resource lease leases)
      ≡ (lease.token == token && ltb at lease.expires_at)
unfolding check check_over
check_inserted at resource token lease leases = rw (lookup-insert_same resource lease leases)

keeps :
    (now : ℕ) (token resource : String) (ttl : ℕ) (leases : Leases) (lease : Lease)
    → lookup resource leases ≡ some lease
    → now < lease.expires_at
    → (acquire now (some token) resource lease.holder ttl leases).0
      ≡ granted (record lease { expires_at = now + ttl })
unfolding acquire acquire_over
keeps now token resource ttl leases lease found live =
    rw found (ground (arith, eq_iff lease.holder lease.holder))

draws :
    (now db_now : ℕ) (token resource : String) (ttl : ℕ) (leases : Leases) (lease : Lease)
    → lookup resource leases ≡ some lease
    → (pg_acquire now db_now (some token) resource lease.holder ttl leases).0
      ≡ granted (record {
        resource = resource;
        token = token;
        holder = lease.holder;
        expires_at = now + ttl;
      })
unfolding pg_acquire upsert returned
draws now db_now token resource ttl leases lease found =
    rw found (ground (arith, eq_iff lease.holder lease.holder))

-- When the holder of a live lease acquires it again, both stores grant it until the new expiry: the store
-- in memory with the token that it had, which passes the check until then, and the UPSERT with the one
-- that was drawn, which passes the check until then; where that differs, the old token fails at once.
pub reacquire_diverges :
    (now db_now : ℕ) (token resource : String) (ttl : ℕ) (leases : Leases) (lease : Lease) (at : ℕ)
    → lookup resource leases ≡ some lease
    → now < lease.expires_at
    → token ≢ lease.token
    → at < now + ttl
    → let memory = acquire now (some token) resource lease.holder ttl leases in
      let postgres = pg_acquire now db_now (some token) resource lease.holder ttl leases in
      (memory.0 ≡ granted (record lease { expires_at = now + ttl }))
      × (check at resource lease.token memory.1 ≡ true)
      × (postgres.0
          ≡ granted (record {
            resource = resource;
            token = token;
            holder = lease.holder;
            expires_at = now + ttl;
          }))
      × (check at resource token postgres.1 ≡ true)
      × (check at resource lease.token postgres.1 ≡ false)
reacquire_diverges now db_now token resource ttl leases lease at found live other early = (
  keeps now token resource ttl leases lease found live,
  rw (renews now token resource ttl leases lease found live, check_inserted)
      (ground (arith, eq_iff lease.token lease.token)),
  draws now db_now token resource ttl leases lease found,
  rw (replaces now db_now token resource ttl leases lease found, check_inserted)
      (ground (arith, eq_iff token token)),
  rw (replaces now db_now token resource ttl leases lease found, check_inserted)
      (ground (arith, eq_iff token lease.token)),
)

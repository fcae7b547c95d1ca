-- ===== src/Kernel/Lease.antt =====
-- internal/kernel/lease.go: fencing leases, as MemLeaseStore keeps them and as the statement of
-- PGLeaseStore.Acquire does. Parameters of an operation: the time, in nanoseconds, and the token that
-- newToken draws, `none` where it fails. A lifetime is not negative. The mutex makes each operation
-- one step.
pub mod Moves
pub mod Fencing
pub mod Retired
pub mod Postgres
use the_foundry.Prelude.{
  ℕ, ◌+◌, Bool, true, false, not, ◌&&◌, ◌||◌, String, Option, none, some, List, [], ◌∷◌, ◌==◌, ltb,
  lookup, insert, delete, if◌then◌else◌,
}

pub record Lease : Type 0 where
  pub resource : String
  pub token : String
  pub holder : String
  pub expires_at : ℕ

-- The map from a resource to its lease.
abbrev pub Leases : Type 0
Leases = List (String × Lease)

pub data Acquired : Type 0 where
  granted : Lease → Acquired
  lease_held : String → Acquired
  no_token : Acquired

unfoldable pub grant : ℕ → Option String → String → String → ℕ → Leases → Acquired × Leases
grant now none resource holder ttl leases = (no_token, leases)
grant now (some token) resource holder ttl leases =
    let lease : Lease = record {
      resource = resource;
      token = token;
      holder = holder;
      expires_at = now + ttl;
    } in
    (granted lease, insert resource lease leases)

-- The branches of `Acquire`, on what the map holds for the resource.
unfoldable pub acquire_over :
    Option Lease → ℕ → Option String → String → String → ℕ → Leases → Acquired × Leases
acquire_over none now fresh resource holder ttl leases = grant now fresh resource holder ttl leases
acquire_over (some existing) now fresh resource holder ttl leases =
    if ltb now existing.expires_at
    then (if not (existing.holder == holder)
        then (lease_held existing.holder, leases)
        else (let renewed = record existing { expires_at = now + ttl } in
            (granted renewed, insert resource renewed leases)))
    else grant now fresh resource holder ttl leases

unfoldable pub acquire : ℕ → Option String → String → String → ℕ → Leases → Acquired × Leases
acquire now fresh resource holder ttl leases =
    acquire_over (lookup resource leases) now fresh resource holder ttl leases

unfoldable pub check_over : Option Lease → ℕ → String → Bool
check_over none now token = false
check_over (some lease) now token = lease.token == token && ltb now lease.expires_at

unfoldable pub check : ℕ → String → String → Leases → Bool
unfolding check_over
check now resource token leases = check_over (lookup resource leases) now token

unfoldable pub release_over : Option Lease → String → String → Leases → Leases
release_over none resource token leases = leases
release_over (some lease) resource token leases =
    if lease.token == token then delete resource leases else leases

unfoldable pub release : String → String → Leases → Leases
unfolding release_over
release resource token leases = release_over (lookup resource leases) resource token leases

-- The operations that change the store, and a run of them in the order of the mutex.
pub data Operation : Type 0 where
  acquiring : ℕ → Option String → String → String → ℕ → Operation
  releasing : String → String → Operation

unfoldable pub step : Operation → Leases → Leases
step (acquiring now fresh resource holder ttl) leases =
    (acquire now fresh resource holder ttl leases).1
step (releasing resource token) leases = release resource token leases

unfoldable pub steps : List Operation → Leases → Leases
steps [] leases = leases
steps (op ∷ ops) leases = steps ops (step op leases)

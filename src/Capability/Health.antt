-- ===== src/Capability/Health.antt =====
-- internal/executor/capability/health.go: the circuit breaker of an executor.
pub mod Breaker
use the_foundry.Prelude.{
  ℕ, suc, ◌+◌, Bool, true, false, not, String, Option, none, some, List, ltb, leb, lookup,
  lookup_or, insert, delete, if◌then◌else◌,
}

pub record Tracker : Type 0 where
  pub trip_until : List (String × ℕ)
  pub failures : List (String × ℕ)
  pub trips : List (String × ℕ)
  pub failure_threshold : ℕ
  pub cooldown : ℕ

unfoldable pub threshold : Tracker → ℕ
threshold h = if ltb 0 h.failure_threshold then h.failure_threshold else 3

unfoldable pub cooldown_time : Tracker → ℕ
cooldown_time h = if ltb 0 h.cooldown then h.cooldown else 60_000_000_000

unfoldable pub record_success : String → Tracker → Tracker
record_success provider h = record h {
  failures = insert provider 0 h.failures;
  trip_until = delete provider h.trip_until;
}

unfoldable pub trip : String → ℕ → Tracker → Tracker
trip provider now h = record h {
  trip_until = insert provider (now + cooldown_time h) h.trip_until;
  trips = insert provider (suc (lookup_or 0 provider h.trips)) h.trips;
}

-- h.consecutiveFailures[provider]++
unfoldable pub count_failure : String → Tracker → Tracker
count_failure provider h = record h {
  failures = insert provider (suc (lookup_or 0 provider h.failures)) h.failures;
}

unfoldable pub record_failure : String → ℕ → Tracker → Tracker
record_failure provider now h =
    let counted = count_failure provider h in
    if leb (threshold h) (suc (lookup_or 0 provider h.failures))
    then trip provider now counted
    else counted

-- RecordRateLimited and RecordUnavailable
unfoldable pub trip_now : String → ℕ → Tracker → Tracker
trip_now provider now h = trip provider now h

-- The instant and the map of a snapshot; a nil map has every provider available.
pub record HealthSnapshot : Type 0 where
  pub at : ℕ
  pub trip_until : Option (List (String × ℕ))

unfoldable pub snapshot : ℕ → Tracker → HealthSnapshot
snapshot now h = record { at = now; trip_until = some h.trip_until }

unfoldable pub over : ℕ → Option ℕ → Bool
over at none = true
over at (some until) = not (ltb at until)

unfoldable pub available_in : ℕ → Option (List (String × ℕ)) → String → Bool
unfolding over
available_in at none provider = true
available_in at (some trips) provider = over at (lookup provider trips)

unfoldable pub available : HealthSnapshot → String → Bool
unfolding available_in
available s provider = available_in s.at s.trip_until provider

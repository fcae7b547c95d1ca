-- ===== src/Capability/Health/Breaker.antt =====
-- When the circuit breaker lets a provider through.
use the_foundry.Prelude.{
  ℕ, suc, ◌+◌, ◌≤◌, ◌<◌, ◌≡◌, ◌≢◌, refl, ◌∙◌, ap, Bool, true, String, none, some, List, [], inl,
  inr, ◌∷◌, ◌||◌, length, arith, ltb→lt, ltb, leb, lookup, lookup_or, lookup-insert_same,
  lookup-insert_other, lookup-delete_same, Bool-cases,
}
use the_foundry.Capability.Health.{
  Tracker, threshold, cooldown_time, record_success, trip, count_failure, record_failure, trip_now,
  snapshot, over, available,
}

-- The failures of one provider at the given times, in order.
unfoldable pub record_failures : String → List ℕ → Tracker → Tracker
record_failures provider [] h = h
record_failures provider (now ∷ times) h =
    record_failures provider times (record_failure provider now h)

-- Whether the provider may run at a time.
abbrev pub lets : String → ℕ → Tracker → Bool
lets provider at h = available (snapshot at h) provider

trips_until :
    (provider : String) (now : ℕ) (h : Tracker)
    → lookup provider (trip provider now h).trip_until ≡ some (now + cooldown_time h)
unfolding trip
trips_until provider now h = lookup-insert_same provider (now + cooldown_time h) h.trip_until

lets_after :
    (provider : String) (at until : ℕ) (h : Tracker)
    → lookup provider h.trip_until ≡ some until
    → lets provider at h ≡ leb until at
unfolding available snapshot
lets_after provider at until h found = rw found (ground arith)

lets_same :
    (provider : String) (at : ℕ) (g h : Tracker)
    → lookup provider g.trip_until ≡ lookup provider h.trip_until
    → lets provider at g ≡ lets provider at h
unfolding available snapshot
lets_same provider at g h same = ap (over at) same

trip_elsewhere :
    (provider other : String) (now : ℕ) (h : Tracker)
    → other ≢ provider
    → lookup other (trip provider now h).trip_until ≡ lookup other h.trip_until
unfolding trip
trip_elsewhere provider other now h apart =
    lookup-insert_other other provider (now + cooldown_time h) h.trip_until apart

-- An observed rate limit or outage stops a provider until its cooldown has passed, and no other one.
pub trip_now_stops :
    (provider other : String) (now at : ℕ) (h : Tracker)
    → other ≢ provider
    → (lets provider at (trip_now provider now h) ≡ leb (now + cooldown_time h) at)
      × (lets other at (trip_now provider now h) ≡ lets other at h)
unfolding trip_now
trip_now_stops provider other now at h apart = (
  lets_after provider at (now + cooldown_time h) (trip provider now h) (trips_until provider now h),
  lets_same other at _ h (trip_elsewhere provider other now h apart),
)

settings-failure :
    (provider : String) (now : ℕ) (h : Tracker)
    → (threshold (record_failure provider now h) ≡ threshold h)
      × (cooldown_time (record_failure provider now h) ≡ cooldown_time h)
unfolding record_failure count_failure trip threshold cooldown_time
settings-failure provider now h = ground arith

settings-failures :
    (provider : String) (times : List ℕ) (h : Tracker)
    → (threshold (record_failures provider times h) ≡ threshold h)
      × (cooldown_time (record_failures provider times h) ≡ cooldown_time h)
unfolding record_failures
settings-failures provider [] h = (refl, refl)
settings-failures provider (now ∷ times) h =
    let one = settings-failure provider now h in
    let more = settings-failures provider times (record_failure provider now h) in
    (more.0 ∙ one.0, more.1 ∙ one.1)

count-failure :
    (provider : String) (now : ℕ) (h : Tracker)
    → lookup_or 0 provider (record_failure provider now h).failures
      ≡ suc (lookup_or 0 provider h.failures)
unfolding record_failure count_failure trip lookup_or
count-failure provider now h =
    ground (arith, lookup-insert_same provider (suc (lookup_or 0 provider h.failures)) h.failures)

count-failures :
    (provider : String) (times : List ℕ) (h : Tracker)
    → lookup_or 0 provider (record_failures provider times h).failures
      ≡ lookup_or 0 provider h.failures + length times
unfolding record_failures
count-failures provider [] h = omega arith
count-failures provider (now ∷ times) h = omega (
  arith,
  count-failure provider now h,
  count-failures provider times (record_failure provider now h),
)

untripped-failure :
    (provider : String) (now : ℕ) (h : Tracker)
    → suc (lookup_or 0 provider h.failures) < threshold h
    → lookup provider (record_failure provider now h).trip_until ≡ lookup provider h.trip_until
unfolding record_failure count_failure
untripped-failure provider now h few = ground arith

untripped-failures :
    (provider : String) (times : List ℕ) (h : Tracker)
    → lookup_or 0 provider h.failures + length times < threshold h
    → lookup provider (record_failures provider times h).trip_until ≡ lookup provider h.trip_until
unfolding record_failures
untripped-failures provider [] h few = refl
untripped-failures provider (now ∷ times) h few =
    untripped-failures provider times (record_failure provider now h)
      (omega (arith, count-failure provider now h, (settings-failure provider now h).0))
    ∙ untripped-failure provider now h (omega arith)

cooldown-counted :
    (provider : String) (h : Tracker) → cooldown_time (count_failure provider h) ≡ cooldown_time h
unfolding cooldown_time count_failure
cooldown-counted provider h = refl

tripping-failure :
    (provider : String) (now : ℕ) (h : Tracker)
    → threshold h ≤ suc (lookup_or 0 provider h.failures)
    → lookup provider (record_failure provider now h).trip_until ≡ some (now + cooldown_time h)
unfolding record_failure
tripping-failure provider now h many =
    ground (arith, trips_until provider now (count_failure provider h), cooldown-counted provider h)

-- A success clears the streak and the trip, and keeps the settings.
cleared :
    (provider : String) (h : Tracker)
    → let c = record_success provider h in
      (lookup_or 0 provider c.failures ≡ 0)
      × (lookup provider c.trip_until ≡ none)
      × (threshold c ≡ threshold h)
      × (cooldown_time c ≡ cooldown_time h)
unfolding record_success threshold cooldown_time lookup_or
cleared provider h = (
  rw (lookup-insert_same provider 0 h.failures),
  lookup-delete_same provider h.trip_until,
  refl,
  refl,
)

lets_untripped :
    (provider : String) (at : ℕ) (h : Tracker)
    → lookup provider h.trip_until ≡ none
    → lets provider at h ≡ true
unfolding available snapshot
lets_untripped provider at h found = rw found refl

-- After a success, failures stop a provider exactly when they reach the threshold, and then until the
-- cooldown after the last of them has passed.
pub breaker_opens :
    (provider : String) (times : List ℕ) (now at : ℕ) (h : Tracker)
    → lets provider at
        (record_failure provider now (record_failures provider times (record_success provider h)))
      ≡ (ltb (suc (length times)) (threshold h) || leb (now + cooldown_time h) at)
breaker_opens provider times now at h = elim (Bool-cases (ltb (suc (length times)) (threshold h))) [
  | inl few ↦
      let short : suc (length times) < threshold h = ltb→lt _ _ few in
      let quiet : lookup provider (record_failure provider now failed).trip_until ≡ none =
        untripped-failure provider now failed (omega (arith, count, settings.0, clean.2))
        ∙ untripped-failures provider times start (omega (arith, clean.0, clean.2))
        ∙ clean.1 in
      lets_untripped provider at (record_failure provider now failed) quiet ∙ ground arith
  | inr many ↦
      let long : threshold failed ≤ suc (lookup_or 0 provider failed.failures) =
        ground (arith, count, settings.0, clean.2) in
      lets_after provider at (now + cooldown_time failed) (record_failure provider now failed)
        (tripping-failure provider now failed long)
      ∙ ground (arith, settings.1, clean.3)
]
  where
    start : Tracker
    start = record_success provider h

    failed : Tracker
    failed = record_failures provider times start

    clean :
        (lookup_or 0 provider start.failures ≡ 0)
        × (lookup provider start.trip_until ≡ none)
        × (threshold start ≡ threshold h)
        × (cooldown_time start ≡ cooldown_time h)
    clean = cleared provider h

    settings : (threshold failed ≡ threshold start) × (cooldown_time failed ≡ cooldown_time start)
    settings = settings-failures provider times start

    count : lookup_or 0 provider failed.failures ≡ length times
    count = omega (arith, count-failures provider times start, clean.0)

-- ===== src/Scenarios/Leases.antt =====
-- Leases of internal/kernel/lease.go at concrete inputs.
use the_foundry.Prelude.{
  ◌≡◌, ◌≢◌, ==-false→ne, inl, inr, refl, ap, true, false, some, List, [], ◌∷◌, arith, lookup,
}
use mathlib.Core.Option.{some-injective}
use the_foundry.Kernel.Lease.{
  granted, Lease, Leases, grant, acquire, acquire_over, check, Operation, acquiring, releasing,
  steps,
}
use the_foundry.Kernel.Lease.Fencing.{granted_guards}
use the_foundry.Kernel.Lease.Retired.{superseded_rejected}
use the_foundry.Kernel.Lease.Postgres.{pg_acquire, is_granted, stores_agree, reacquire_diverges}

abbrev mine : Lease
mine = record { resource = "repo"; token = "t1"; holder = "w1"; expires_at = 110 }

-- Another worker tries twice, on this resource and on another one, and releases a token it made up.
abbrev rivals : List Operation
rivals =
    acquiring 20 (some "t2") "repo" "w2" 100
    ∷ acquiring 30 (some "t3") "docs" "w2" 100
    ∷ releasing "repo" "t9"
    ∷ []

granted_guards_example :
    check 109 "repo" "t1" (steps rivals (acquire 10 (some "t1") "repo" "w1" 100 []).1) ≡ true
unfolding acquire acquire_over grant lookup
granted_guards_example =
    granted_guards 10 (some "t1") "repo" "w1" 100 [] mine rivals 109 refl
      (
        inr (==-false→ne "w2" "w1" refl, omega arith),
        (inl (==-false→ne "docs" "repo" refl), (inr (==-false→ne "t9" "t1" refl), tt)),
      )
      (omega arith)

abbrev theirs : Lease
theirs = record { resource = "repo"; token = "t2"; holder = "w2"; expires_at = 220 }

abbrev held : Leases
held = ("repo", mine) ∷ []

superseded_rejected_example :
    check 121 "repo" "t1" (
      steps
        (releasing "repo" "t2" ∷ acquiring 130 (some "t4") "repo" "w1" 50 ∷ [])
        (acquire 120 (some "t2") "repo" "w2" 100 held).1)
    ≡ false
unfolding acquire acquire_over grant lookup
superseded_rejected_example =
    superseded_rejected 120 (some "t2") "repo" "w2" 100 held theirs "t1"
      (releasing "repo" "t2" ∷ acquiring 130 (some "t4") "repo" "w1" 50 ∷ []) 121 refl
      (==-false→ne "t2" "t1" refl)
      ((λ e. e), ((λ e. ==-false→ne "t4" "t1" refl (some-injective "t4" "t1" e)), tt))

not_now : (lease : Lease) → some mine ≡ some lease → lease.expires_at ≢ 50
not_now lease same late =
    absurd (omega (arith, ap (λ l. l.expires_at) (some-injective mine lease same), late))

stores_agree_example :
    is_granted (acquire 50 (some "t2") "repo" "w2" 100 held).0
    ≡ is_granted (pg_acquire 50 50 (some "t2") "repo" "w2" 100 held).0
unfolding lookup
stores_agree_example = stores_agree 50 "t2" "repo" "w2" 100 held not_now

reacquire_diverges_example :
    let memory = acquire 50 (some "t2") "repo" "w1" 100 held in
    let postgres = pg_acquire 50 50 (some "t2") "repo" "w1" 100 held in
    (memory.0 ≡ granted (record mine { expires_at = 150 }))
    × (check 60 "repo" "t1" memory.1 ≡ true)
    × (postgres.0 ≡ granted (record mine { token = "t2"; expires_at = 150 }))
    × (check 60 "repo" "t2" postgres.1 ≡ true)
    × (check 60 "repo" "t1" postgres.1 ≡ false)
unfolding lookup
reacquire_diverges_example =
    reacquire_diverges 50 50 "t2" "repo" 100 held mine 60 refl (omega arith)
      (==-false→ne "t2" "t1" refl) (omega arith)

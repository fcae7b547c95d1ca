-- ===== src/Verify/Verdict.antt =====
-- A validation run passes exactly when it ran something and nothing in it failed.
use the_foundry.Prelude.{ℕ, ◌≡◌, ◌≢◌, ◌↔◌, refl, true, false, List, [], ◌∷◌, arith, All, is_zero}
use the_foundry.Verify.{CommandRecord, scan, evaluate}

pub record IsClean (rec : CommandRecord) : Type 0 where
  pub allowed : rec.policy_violation ≡ false
  pub in_time : rec.timed_out ≡ false
  pub exit_zero : is_zero rec.exit_code ≡ true

scan-clean :
    (records : List CommandRecord) (attempt : ℕ)
    → All IsClean records
    → scan records attempt ≡ (true, "")
unfolding scan
scan-clean [] attempt h = refl
scan-clean (rec ∷ records) attempt h = ground (arith, h.0, scan-clean records attempt h.1)

scan-pass :
    (records : List CommandRecord) (attempt : ℕ)
    → (scan records attempt).0 ≡ true
    → All IsClean records
unfolding scan
scan-pass [] attempt h = tt
scan-pass (rec ∷ records) attempt h = (ground arith, scan-pass records attempt (ground arith))

-- The verdict is a pass exactly when at least one command ran and every record is clean: no policy
-- violation, no timeout, exit code 0.
pub evaluate-pass :
    (records : List CommandRecord) (attempt : ℕ)
    → ((evaluate records attempt).0 ≡ true) ↔ ((records ≢ []) × All IsClean records)
unfolding evaluate
evaluate-pass [] attempt = (λ h. cc, λ h. absurd (h.0 refl))
evaluate-pass (rec ∷ records) attempt = (
  λ h. (λ e. cc, scan-pass (rec ∷ records) attempt h),
  λ h. rw (scan-clean (rec ∷ records) attempt h.1),
)

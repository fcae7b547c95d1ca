-- ===== src/Kernel/ChangeSet/Outcome.antt =====
-- What RunChangeSet answers, for every plan and every attempts.
use the_foundry.Prelude.{
  ℕ, suc, ◌+◌, ◌≤◌, ◌≡◌, ◌≢◌, inl, inr, refl, sym, ap, ◌∙◌, Bool, true, false, ◌==◌, eq_iff, String,
  some, List, [], ◌∷◌, arith, length, all, contains, lookup, lookup_or, insert, Bool-cases,
  String-cases, if◌then◌else◌,
}
use mathlib.Core.Option.{some-injective}
use the_foundry.Kernel.ChangeSet.Saga
use the_foundry.Kernel.ChangeSet.Honest.{IsHonest, IsSound, attempt}

abbrev pub is_integrated : Saga.RepoStatus → Bool
is_integrated Saga.integrated = true
is_integrated Saga.pushed_blocked = false
is_integrated Saga.repo_failed = false

integrated_status : (s : Saga.RepoStatus) → is_integrated s ≡ true → s ≡ Saga.integrated
integrated_status Saga.integrated e = refl
integrated_status Saga.pushed_blocked e = cc
integrated_status Saga.repo_failed e = cc

all-contains :
    (p : String → Bool) (ds : List String) (d : String)
    → all p ds ≡ true
    → contains ds d ≡ true
    → p d ≡ true
all-contains p [] d e c = cc
all-contains p (x ∷ ds) d e c = elim (String-cases x d) [
  | inl same ↦ ap p (sym same) ∙ ground (arith, e)
  | inr apart ↦ all-contains p ds d (ground (arith, e)) (ground (arith, c, apart, eq_iff x d))
]

module _ {R : Type 0} where
  -- How many receipts are not of an integrated repo.
  unfoldable pub held_back : List (String × Saga.RepoReceipt R) → ℕ
  held_back [] = 0
  held_back (e ∷ es) = if is_integrated e.1.status then held_back es else suc (held_back es)

  held_back-insert :
      (k : String) (r : Saga.RepoReceipt R) (es : List (String × Saga.RepoReceipt R))
      → held_back (insert k r es) ≤ held_back es + (if is_integrated r.status then 0 else 1)
  unfolding held_back insert
  held_back-insert k r [] = ground arith
  held_back-insert k r (e ∷ es) = ground (arith, held_back-insert k r es)

  pub none_held :
      (es : List (String × Saga.RepoReceipt R)) (k : String) (r : Saga.RepoReceipt R)
      → held_back es ≡ 0
      → lookup k es ≡ some r
      → r.status ≡ Saga.integrated
  unfolding held_back lookup
  none_held [] k r e found = cc
  none_held (x ∷ es) k r e found = elim (Bool-cases (x.0 == k)) [
    | inl here ↦
        let same : x.1 ≡ r = some-injective x.1 r (rw here at found) in
        ap (λ (z : Saga.RepoReceipt R). z.status) (sym same)
        ∙ integrated_status x.1.status (ground (arith, e))
    | inr there ↦ none_held es k r (ground (arith, e)) (rw there at found)
  ]

module _ {R : Type 0} (no_receipt : R) (branch_of : R → String) (deps : List (String × List String))
    (attempts : List (String × Saga.RepoAttempt R)) where
  abbrev pub counted : Saga.Progress R → ℕ
  counted p = length p.integrated_repos + held_back p.receipts

  place-counted :
      (pushed ok : Bool) (alias : String) (a : Saga.RepoAttempt R) (p : Saga.Progress R)
      → counted (Saga.place no_receipt branch_of pushed ok alias a p) ≤ suc (counted p)
  unfolding Saga.place
  place-counted true true alias a p = ground (
    arith,
    held_back-insert alias (Saga.receipt_of no_receipt branch_of alias Saga.integrated a.receipt "")
        p.receipts,
  )
  place-counted true false alias a p = ground (
    arith,
    held_back-insert alias
        (Saga.receipt_of no_receipt branch_of alias Saga.pushed_blocked a.receipt "") p.receipts,
  )
  place-counted false ok alias a p = ground (
    arith,
    held_back-insert alias
        (Saga.receipt_of no_receipt branch_of alias Saga.repo_failed no_receipt a.err) p.receipts,
  )

  pub integrate-counted :
      (aliases : List String) (p : Saga.Progress R)
      → counted (Saga.integrate no_receipt branch_of deps attempts aliases p)
        ≤ length aliases + counted p
  unfolding Saga.integrate
  integrate-counted [] p = omega arith
  integrate-counted (alias ∷ later) p =
      let a = Saga.attempt_of no_receipt branch_of attempts alias in
      let ok = all (contains p.integrated_repos) (lookup_or [] alias deps) in
      let next = Saga.place no_receipt branch_of a.pushed ok alias a p in
      omega (arith, integrate-counted later next, place-counted a.pushed ok alias a p)

  -- Receipts tell of the attempts: a repo that has pushed keeps its receipt and is not failed, one that
  -- has not is failed with its error, and the dependencies of an integrated one are integrated.
  pub record IsFaithful (receipts : List (String × Saga.RepoReceipt R)) (alias : String)
      (r : Saga.RepoReceipt R) : Type 0 where
    pub ordered :
        r.status ≡ Saga.integrated
        → (d : String) → contains (lookup_or [] alias deps) d ≡ true
        → (r' : Saga.RepoReceipt R) × (lookup d receipts ≡ some r') × (r'.status ≡ Saga.integrated)
    pub pushed :
        (attempt no_receipt branch_of deps attempts alias).pushed ≡ true
        → (r.status ≢ Saga.repo_failed)
          × (r.receipt ≡ (attempt no_receipt branch_of deps attempts alias).receipt)
    pub not_pushed :
        (attempt no_receipt branch_of deps attempts alias).pushed ≡ false
        → (r.status ≡ Saga.repo_failed)
          × (r.error ≡ (attempt no_receipt branch_of deps attempts alias).err)

  pub faithful :
      (p : Saga.Progress R) (alias : String) (r : Saga.RepoReceipt R)
      → IsSound no_receipt branch_of deps attempts p
      → lookup alias p.receipts ≡ some r
      → IsFaithful p.receipts alias r
  faithful p alias r s found =
      let h = s.honest alias r found in
      record {
        ordered = λ e d c. s.recorded d (
            all-contains (contains p.integrated_repos) (lookup_or [] alias deps) d
              (h.when_integrated e) c);
        pushed = h.when_pushed;
        not_pushed = h.when_not_pushed;
      }

  pub raw-IsHonest :
      (alias : String) (b : Bool)
      → (attempt no_receipt branch_of deps attempts alias).pushed ≡ b
      → IsHonest no_receipt branch_of deps attempts [] alias (
          Saga.raw_over no_receipt branch_of b alias
            (attempt no_receipt branch_of deps attempts alias))
        × ((Saga.raw_over no_receipt branch_of b alias
              (attempt no_receipt branch_of deps attempts alias)).status
            ≢ Saga.integrated)
  unfolding Saga.raw_over
  raw-IsHonest alias true e = (
    record {
      when_integrated = λ q. cc;
      when_pushed = λ q. ((λ z. cc), refl);
      when_not_pushed = λ q. cc (e, q);
    },
    λ q. cc,
  )
  raw-IsHonest alias false e = (
    record {
      when_integrated = λ q. cc;
      when_pushed = λ q. cc (e, q);
      when_not_pushed = λ q. (refl, refl);
    },
    λ q. cc,
  )

-- ===== src/Kernel/ChangeSet/Run.antt =====
-- What RunChangeSet answers, for every plan and every attempts.
use the_foundry.Prelude.{
  ℕ, ◌≤◌, ◌≡◌, ◌≢◌, ◌⊎◌, inl, inr, refl, sym, ap, ◌∙◌, subst, ◌&&◌, Bool, true, false, eq_iff, all,
  contains, map, lookup_or, String, Option, none, some, List, [], ◌∷◌, arith, eqb, eqb→≡, length,
  is_empty, lookup, insert, lookup-insert_same, lookup-insert_other, Bool-cases, String-cases,
}
use mathlib.Core.Option.{some-injective}
use the_foundry.State.Registry.{succeeded, failed, proven_blocked, handoff_ready}
use the_foundry.Kernel.ChangeSet.{
  RepoNode, Built, built, unknown_repo, Order, order, depends_on_unknown, cycle, out_of_fuel,
  complete, order_of, topo_order,
}
use the_foundry.Kernel.ChangeSet.Saga
use the_foundry.Kernel.ChangeSet.Honest.{IsHonest, IsSound, integrate-IsSound}
use the_foundry.Kernel.ChangeSet.Counted.{IsKey, IsKey-insert}
use the_foundry.Kernel.ChangeSet.Covers.{topo_order-contains}
use the_foundry.Kernel.ChangeSet.Outcome.{
  held_back, none_held, counted, integrate-counted, IsFaithful, faithful, raw-IsHonest,
}

inserted :
    {V : Type 0} (P : String → V → Type 0) (k : String) (new : V) (es : List (String × V))
    → P k new
    → ((a : String) (r : V) → lookup a es ≡ some r → P a r)
    → (a : String) (r : V) → lookup a (insert k new es) ≡ some r
    → P a r
inserted {V} P k new es fresh old a r found = elim (String-cases a k) [
  | inl same ↦
      let is : new ≡ r = some-injective new r (
        sym (lookup-insert_same k new es)
        ∙ ap (λ z. lookup z (insert k new es)) (sym same)
        ∙ found) in
      subst (λ (z : String × V). P z.0 z.1) (λ i. (sym same i, is i)) fresh
  | inr apart ↦ old a r (sym (lookup-insert_other a k new es apart) ∙ found)
]

-- An order has as many aliases as there are repos.
complete-length :
    (n : ℕ) (o : Option (List String)) (aliases : List String)
    → complete n o ≡ order aliases
    → length aliases ≡ n
unfolding complete
complete-length n none aliases e = cc
complete-length n (some found) aliases e = elim (Bool-cases (eqb (length found) n)) [
  | inl all ↦
      let same : found ≡ aliases = inner (rw all at e) in
      ap length (sym same) ∙ eqb→≡ (length found) n all
  | inr left ↦ cc (rw left at e)
]
  where
    inner : {x y : List String} → order x ≡ order y → x ≡ y
    inner e = cc

order_of-length :
    (n : ℕ) (b : Built) (aliases : List String) → order_of n b ≡ order aliases → length aliases ≡ n
unfolding order_of
order_of-length n (unknown_repo r d) aliases e = cc
order_of-length n (built g) aliases e = complete-length n _ aliases e

module _ {R : Type 0} (no_receipt : R) (branch_of : R → String) (name_at : String → String → String)
    (plan : Saga.Plan) (attempts : List (String × Saga.RepoAttempt R)) where
  abbrev pub deps : List (String × List String)
  deps = Saga.deps_of plan.repos []

  place-IsKey :
      (b ok : Bool) (alias : String) (at : Saga.RepoAttempt R) (p : Saga.Progress R) (a : String)
      → (a ≡ alias) ⊎ IsKey a p.receipts
      → IsKey a (Saga.place no_receipt branch_of b ok alias at p).receipts
  unfolding Saga.place
  place-IsKey true true alias at p a h = IsKey-insert a alias _ p.receipts h
  place-IsKey true false alias at p a h = IsKey-insert a alias _ p.receipts h
  place-IsKey false ok alias at p a h = IsKey-insert a alias _ p.receipts h

  integrate-IsKey :
      (aliases : List String) (p : Saga.Progress R) (a : String)
      → (contains aliases a ≡ true) ⊎ IsKey a p.receipts
      → IsKey a (Saga.integrate no_receipt branch_of deps attempts aliases p).receipts
  unfolding Saga.integrate
  integrate-IsKey [] p a h = elim h [ inl e ↦ cc | inr k ↦ k ]
  integrate-IsKey (alias ∷ later) p a h =
      let attempt = Saga.attempt_of no_receipt branch_of attempts alias in
      let ok = all (contains p.integrated_repos) (lookup_or [] alias deps) in
      let next = Saga.place no_receipt branch_of attempt.pushed ok alias attempt p in
      integrate-IsKey later next a (elim (String-cases a alias) [
        | inl same ↦ inr (place-IsKey attempt.pushed ok alias attempt p a (inl same))
        | inr apart ↦ elim h [
          | inl e ↦ inl (ground (arith, e, apart, eq_iff alias a))
          | inr k ↦ inr (place-IsKey attempt.pushed ok alias attempt p a (inr k))
        ]
      ])

  raw-IsKey :
      (rs : List RepoNode) (receipts : List (String × Saga.RepoReceipt R)) (a : String)
      → (contains (map (λ n. n.alias) rs) a ≡ true) ⊎ IsKey a receipts
      → IsKey a (Saga.raw_receipts no_receipt branch_of attempts rs receipts)
  unfolding Saga.raw_receipts
  raw-IsKey [] receipts a h = elim h [ inl e ↦ cc | inr k ↦ k ]
  raw-IsKey (n ∷ rs) receipts a h = raw-IsKey rs _ a (elim (String-cases a n.alias) [
    | inl same ↦ inr (IsKey-insert a n.alias _ receipts (inl same))
    | inr apart ↦ elim h [
      | inl e ↦ inl (ground (arith, e, apart, eq_iff n.alias a))
      | inr k ↦ inr (IsKey-insert a n.alias _ receipts (inr k))
    ]
  ])

  -- Every repo of the plan has a receipt, and the receipts are faithful; success is an integration of every repo that has a receipt; and what is
  -- not a success is a proven block.
  pub record IsHonestResult (res : Saga.SagaResult R) : Type 0 where
    pub every_repo :
        (alias : String)
        → contains (map (λ n. n.alias) plan.repos) alias ≡ true
        → (r : Saga.RepoReceipt R) × (lookup alias res.receipts ≡ some r)
    pub receipts_faithful :
        (alias : String) (r : Saga.RepoReceipt R)
        → lookup alias res.receipts ≡ some r
        → IsFaithful no_receipt branch_of deps attempts res.receipts alias r
    pub all_integrated :
        res.status ≡ succeeded
        → (alias : String) (r : Saga.RepoReceipt R) → lookup alias res.receipts ≡ some r
        → r.status ≡ Saga.integrated
    pub final :
        ((res.status ≡ succeeded) × (res.result_code ≡ handoff_ready))
        ⊎ ((res.status ≡ failed) × (res.result_code ≡ proven_blocked))

  raw :
      (rs : List RepoNode) (receipts : List (String × Saga.RepoReceipt R))
      → ((a : String) (r : Saga.RepoReceipt R)
          → lookup a receipts ≡ some r
          → IsHonest no_receipt branch_of deps attempts [] a r × (r.status ≢ Saga.integrated))
      → (a : String) (r : Saga.RepoReceipt R)
      → lookup a (Saga.raw_receipts no_receipt branch_of attempts rs receipts) ≡ some r
      → IsHonest no_receipt branch_of deps attempts [] a r × (r.status ≢ Saga.integrated)
  unfolding Saga.raw_receipts
  raw [] receipts old a r found = old a r found
  raw (n ∷ rs) receipts old a r found =
      raw rs _
        (inserted
          (λ a r. IsHonest no_receipt branch_of deps attempts [] a r × (r.status ≢ Saga.integrated))
          n.alias _ receipts (raw-IsHonest no_receipt branch_of deps attempts n.alias _ refl) old)
        a r found

  refused : (o : Order) → IsHonestResult (Saga.refuse no_receipt branch_of name_at plan attempts o)
  unfolding Saga.refuse lookup
  refused o = record {
    every_repo = λ alias known. raw-IsKey plan.repos [] alias (inl known);
    receipts_faithful = λ alias r found.
        let (h, apart) = raw plan.repos [] (λ a r e. cc) alias r found in
        record {
          ordered = λ e. absurd (apart e);
          pushed = h.when_pushed;
          not_pushed = h.when_not_pushed;
        };
    all_integrated = λ e. cc;
    final = inr (refl, refl);
  }

  concluded :
      (p : Saga.Progress R)
      → IsSound no_receipt branch_of deps attempts p
      → counted no_receipt branch_of deps attempts p ≤ length plan.repos
      → ((a : String) → contains (map (λ n. n.alias) plan.repos) a ≡ true → IsKey a p.receipts)
      → IsHonestResult (Saga.conclude no_receipt branch_of name_at plan p)
  unfolding Saga.conclude
  concluded p s count kept =
      elim (Bool-cases
        (is_empty p.failed_repos && eqb (length p.integrated_repos) (length plan.repos))) [
          | inl success ↦ rw success (record {
            every_repo = kept;
            receipts_faithful =
                λ alias r found. faithful no_receipt branch_of deps attempts p alias r s found;
            all_integrated = λ e alias r found.
                none_held p.receipts alias r (ground (arith, success, count)) found;
            final = inl (refl, refl);
          })
          | inr not_all ↦ rw not_all (record {
            every_repo = kept;
            receipts_faithful =
                λ alias r found. faithful no_receipt branch_of deps attempts p alias r s found;
            all_integrated = λ e. cc;
            final = inr (refl, refl);
          })
        ]

  ordered_result :
      (o : Order)
      → ((aliases : List String) → o ≡ order aliases → length aliases ≡ length plan.repos)
      → ((aliases : List String) (a : String)
          → o ≡ order aliases
          → contains (map (λ n. n.alias) plan.repos) a ≡ true
          → contains aliases a ≡ true)
      → IsHonestResult (Saga.run_ordered no_receipt branch_of name_at plan attempts o)
  unfolding Saga.run_ordered held_back lookup
  ordered_result (order aliases) size whole =
      let start : Saga.Progress R = record {
        integrated_repos = [];
        failed_repos = [];
        receipts = [];
      } in
      concluded _
        (integrate-IsSound no_receipt branch_of deps attempts aliases start
          (record { honest = λ a r e. cc; recorded = λ a e. cc }))
        (omega (
          arith,
          integrate-counted no_receipt branch_of deps attempts aliases start,
          size aliases refl,
        ))
        (λ a known. integrate-IsKey aliases start a (inl (whole aliases a refl known)))
  ordered_result (depends_on_unknown r d) size whole = refused (depends_on_unknown r d)
  ordered_result (cycle n) size whole = refused (cycle n)
  ordered_result out_of_fuel size whole = refused out_of_fuel

  -- For every plan and all attempts, every repo of the plan has a receipt in the result. Of each receipt: a repo that has pushed keeps its
  -- push's receipt and is not called failed, one that has not is failed with its error, and every
  -- dependency of an integrated repo has a receipt as integrated. The saga succeeds, as handoff ready, only
  -- if every receipt is of an integrated repo, and is a proven block otherwise.
  pub run_change_set-IsHonestResult :
      IsHonestResult (Saga.run_change_set no_receipt branch_of name_at plan attempts)
  unfolding Saga.run_change_set topo_order
  run_change_set-IsHonestResult =
      ordered_result (topo_order plan.repos)
        (λ aliases e. order_of-length (length plan.repos) _ aliases e)
        (λ aliases a e known. topo_order-contains plan.repos aliases a e known)

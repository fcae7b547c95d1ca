-- ===== src/Kernel/ChangeSet/Honest.antt =====
-- What the receipts of a change-set say is so.
use the_foundry.Prelude.{
  ◌≡◌, ◌≢◌, ◌⊎◌, inl, inr, refl, sym, ap, ◌∙◌, subst, Bool, true, false, eq_iff, String, some, List,
  [], ◌∷◌, arith, all, contains, lookup, lookup_or, insert, lookup-insert_same, lookup-insert_other,
  String-cases, Bool-cases, if◌then◌else◌,
}
use mathlib.Core.Option.{some-injective}
use the_foundry.Kernel.ChangeSet.Saga

module _ {R : Type 0} (no_receipt : R) (branch_of : R → String) (deps : List (String × List String))
    (attempts : List (String × Saga.RepoAttempt R)) where
  abbrev pub attempt : String → Saga.RepoAttempt R
  attempt = Saga.attempt_of no_receipt branch_of attempts

  -- Of one alias and its receipt: an integrated repo has pushed, and its dependencies are integrated;
  -- a repo that has pushed keeps its receipt and is not failed; one that has not is failed.
  pub record IsHonest (integrated : List String) (alias : String) (r : Saga.RepoReceipt R)
      : Type 0 where
    pub when_integrated :
        r.status ≡ Saga.integrated → (all (contains integrated) (lookup_or [] alias deps) ≡ true)
    pub when_pushed :
        (attempt alias).pushed ≡ true
        → (r.status ≢ Saga.repo_failed) × (r.receipt ≡ (attempt alias).receipt)
    pub when_not_pushed :
        (attempt alias).pushed ≡ false
        → (r.status ≡ Saga.repo_failed) × (r.error ≡ (attempt alias).err)

  pub record IsSound (p : Saga.Progress R) : Type 0 where
    pub honest :
        (alias : String) (r : Saga.RepoReceipt R)
        → lookup alias p.receipts ≡ some r
        → IsHonest p.integrated_repos alias r
    pub recorded :
        (alias : String)
        → contains p.integrated_repos alias ≡ true
        → (r : Saga.RepoReceipt R) × (lookup alias p.receipts ≡ some r)
          × (r.status ≡ Saga.integrated)

  all_grows :
      (x : String) (xs ds : List String)
      → all (contains xs) ds ≡ true
      → all (contains (if contains xs x then xs else x ∷ xs)) ds ≡ true
  all_grows x xs [] e = refl
  all_grows x xs (d ∷ ds) e = ground (arith, e, all_grows x xs ds)

  -- The receipts with a new one, which is honest.
  pub stored :
      (before after : List String) (alias : String) (new : Saga.RepoReceipt R)
      (receipts : List (String × Saga.RepoReceipt R))
      → IsHonest after alias new
      → ((a : String) (r : Saga.RepoReceipt R) → IsHonest before a r → IsHonest after a r)
      → ((a : String) (r : Saga.RepoReceipt R) → lookup a receipts ≡ some r → IsHonest before a r)
      → (a : String) (r : Saga.RepoReceipt R) → lookup a (insert alias new receipts) ≡ some r
      → IsHonest after a r
  stored before after alias new receipts fresh grows old a r found = elim (String-cases a alias) [
    | inl same ↦
        let is : new ≡ r = some-injective new r (
          sym (lookup-insert_same alias new receipts)
          ∙ ap (λ k. lookup k (insert alias new receipts)) (sym same)
          ∙ found) in
        subst (λ (z : String × Saga.RepoReceipt R). IsHonest after z.0 z.1)
          (λ i. (sym same i, is i)) fresh
    | inr apart ↦ grows a r (old a r (sym (lookup-insert_other a alias new receipts apart) ∙ found))
  ]

  deps_ok : Saga.Progress R → String → Bool
  deps_ok p alias = all (contains p.integrated_repos) (lookup_or [] alias deps)

  -- An integrated repo has pushed, and its dependencies are integrated.
  integrated-ready :
      (p : Saga.Progress R) (alias : String)
      → IsSound p
      → contains p.integrated_repos alias ≡ true
      → ((attempt alias).pushed ≡ true) × (deps_ok p alias ≡ true)
  unfolding deps_ok
  integrated-ready p alias s there =
      let (r, found, status) = s.recorded alias there in
      let h = s.honest alias r found in
      (
        elim (Bool-cases (attempt alias).pushed) [
          | inl pushed ↦ pushed
          | inr idle ↦ cc (status, (h.when_not_pushed idle).0)
        ],
        h.when_integrated status,
      )

  same_integrated :
      (p : Saga.Progress R) (alias : String) (new : Saga.RepoReceipt R)
      → IsSound p
      → contains p.integrated_repos alias ≡ false
      → (a : String) → contains p.integrated_repos a ≡ true
      → (r : Saga.RepoReceipt R) × (lookup a (insert alias new p.receipts) ≡ some r)
        × (r.status ≡ Saga.integrated)
  same_integrated p alias new s absent a there = elim (String-cases a alias) [
    | inl same ↦ cc (absent, ap (contains p.integrated_repos) (sym same) ∙ there)
    | inr apart ↦
        let (r, found, status) = s.recorded a there in
        (r, lookup-insert_other a alias new p.receipts apart ∙ found, status)
  ]

  -- A repo that has not pushed, or waits for a dependency, is not integrated.
  not_there :
      (p : Saga.Progress R) (alias : String)
      → IsSound p
      → ((attempt alias).pushed ≡ false) ⊎ (deps_ok p alias ≡ false)
      → contains p.integrated_repos alias ≡ false
  not_there p alias s (inl idle) = elim (Bool-cases (contains p.integrated_repos alias)) [
    | inl there ↦ cc (idle, (integrated-ready p alias s there).0)
    | inr absent ↦ absent
  ]
  not_there p alias s (inr late) = elim (Bool-cases (contains p.integrated_repos alias)) [
    | inl there ↦ cc (late, (integrated-ready p alias s there).1)
    | inr absent ↦ absent
  ]

  grown : (p : Saga.Progress R) (alias : String) → List String
  grown p alias =
      if contains p.integrated_repos alias then p.integrated_repos else alias ∷ p.integrated_repos

  grown_from :
      (p : Saga.Progress R) (alias a : String)
      → a ≢ alias
      → contains (grown p alias) a ≡ true
      → contains p.integrated_repos a ≡ true
  unfolding grown
  grown_from p alias a apart e = ground (arith, e, apart, eq_iff alias a)

  new_receipt : String → Saga.RepoStatus → R → String → Saga.RepoReceipt R
  new_receipt = Saga.receipt_of no_receipt branch_of

  integrated-IsSound :
      (p : Saga.Progress R) (alias : String)
      → IsSound p
      → (attempt alias).pushed ≡ true
      → deps_ok p alias ≡ true
      → IsSound (Saga.place no_receipt branch_of true true alias (attempt alias) p)
  unfolding Saga.place deps_ok grown new_receipt
  integrated-IsSound p alias s pushed ok =
      let new = new_receipt alias Saga.integrated (attempt alias).receipt "" in
      record {
        honest =
            stored p.integrated_repos (grown p alias) alias new p.receipts
              (record {
                when_integrated =
                    λ _. all_grows alias p.integrated_repos (lookup_or [] alias deps) ok;
                when_pushed = λ _. ((λ e. cc), refl);
                when_not_pushed = λ idle. cc (pushed, idle);
              })
              (λ a r h. record {
                when_integrated = λ e.
                    all_grows alias p.integrated_repos (lookup_or [] a deps) (h.when_integrated e);
                when_pushed = h.when_pushed;
                when_not_pushed = h.when_not_pushed;
              })
              s.honest;
        recorded = λ a there. elim (String-cases a alias) [
          | inl same ↦ (
            new,
            ap (λ k. lookup k (insert alias new p.receipts)) same
                ∙ lookup-insert_same alias new p.receipts,
            refl,
          )
          | inr apart ↦
              let (r, found, status) = s.recorded a (grown_from p alias a apart there) in
              (r, lookup-insert_other a alias new p.receipts apart ∙ found, status)
        ];
      }

  blocked-IsSound :
      (p : Saga.Progress R) (alias : String)
      → IsSound p
      → (attempt alias).pushed ≡ true
      → deps_ok p alias ≡ false
      → IsSound (Saga.place no_receipt branch_of true false alias (attempt alias) p)
  unfolding Saga.place new_receipt
  blocked-IsSound p alias s pushed late =
      let new = new_receipt alias Saga.pushed_blocked (attempt alias).receipt "" in
      record {
        honest =
            stored p.integrated_repos p.integrated_repos alias new p.receipts
              (record {
                when_integrated = λ e. cc;
                when_pushed = λ _. ((λ e. cc), refl);
                when_not_pushed = λ idle. cc (pushed, idle);
              })
              (λ a r h. h) s.honest;
        recorded = same_integrated p alias new s (not_there p alias s (inr late));
      }

  failed-IsSound :
      (p : Saga.Progress R) (alias : String) (ok : Bool)
      → IsSound p
      → (attempt alias).pushed ≡ false
      → IsSound (Saga.place no_receipt branch_of false ok alias (attempt alias) p)
  unfolding Saga.place new_receipt
  failed-IsSound p alias ok s idle =
      let new = new_receipt alias Saga.repo_failed no_receipt (attempt alias).err in
      record {
        honest =
            stored p.integrated_repos p.integrated_repos alias new p.receipts
              (record {
                when_integrated = λ e. cc;
                when_pushed = λ pushed. cc (pushed, idle);
                when_not_pushed = λ _. (refl, refl);
              })
              (λ a r h. h) s.honest;
        recorded = same_integrated p alias new s (not_there p alias s (inl idle));
      }

  place-IsSound :
      (p : Saga.Progress R) (alias : String) (pushed ok : Bool)
      → (attempt alias).pushed ≡ pushed
      → deps_ok p alias ≡ ok
      → IsSound p
      → IsSound (Saga.place no_receipt branch_of pushed ok alias (attempt alias) p)
  place-IsSound p alias true true e f s = integrated-IsSound p alias s e f
  place-IsSound p alias true false e f s = blocked-IsSound p alias s e f
  place-IsSound p alias false ok e f s = failed-IsSound p alias ok s e

  pub integrate-IsSound :
      (aliases : List String) (p : Saga.Progress R)
      → IsSound p
      → IsSound (Saga.integrate no_receipt branch_of deps attempts aliases p)
  unfolding Saga.integrate deps_ok
  integrate-IsSound [] p s = s
  integrate-IsSound (alias ∷ later) p s =
      integrate-IsSound later _ (place-IsSound p alias _ _ refl refl s)

-- ===== src/Kernel/ChangeSet/Counted.antt =====
-- The counts that topoOrder starts from have every alias of the repos, and no more keys than repos.
use the_foundry.Prelude.{
  ℕ, suc, ◌+◌, ◌≤◌, ◌≡◌, ◌⊎◌, inl, inr, refl, ap, ◌∙◌, true, ◌==◌, eq_iff, String, some, List, [],
  ◌∷◌, map, arith, length, contains, lookup, lookup_or, insert, lookup-insert_same,
  lookup-insert_other, subst, Bool-cases, String-cases, Option-cases,
}
use the_foundry.Kernel.ChangeSet.{
  RepoNode, Graph, Built, built, unknown_repo, add_edge, add_edges, with_entry, build_next, build,
}

-- The keys of a map.
abbrev pub IsKey : {V : Type 0} → String → List (String × V) → Type 0
IsKey {V} a es = (v : V) × (lookup a es ≡ some v)

pub IsKey-insert :
    {V : Type 0} (a c : String) (new : V) (es : List (String × V))
    → (a ≡ c) ⊎ IsKey a es
    → IsKey a (insert c new es)
IsKey-insert a c new es h = elim (String-cases a c) [
  | inl same ↦ (new, ap (λ k. lookup k (insert c new es)) same ∙ lookup-insert_same c new es)
  | inr apart ↦ elim h [
    | inl same ↦ absurd (apart same)
    | inr (v, found) ↦ (v, lookup-insert_other a c new es apart ∙ found)
  ]
]

length-insert_key :
    (c : String) (n : ℕ) (es : List (String × ℕ)) → IsKey c es → length (insert c n es) ≡ length es
unfolding insert lookup
length-insert_key c n [] (m, found) = cc
length-insert_key c n (e ∷ es) (m, found) = elim (Bool-cases (e.0 == c)) [
  | inl here ↦ rw here refl
  | inr there ↦ rw there (ap suc (length-insert_key c n es (m, rw there at found)))
]

length-insert_any :
    (c : String) (n : ℕ) (es : List (String × ℕ)) → length (insert c n es) ≤ length es + 1
unfolding insert
length-insert_any c n [] = omega arith
length-insert_any c n (e ∷ es) = ground (arith, length-insert_any c n es)

-- What the edges of one repo, and those of all of them, make of the counts.
pub record IsCounted (known : String → Type 0) (before after : List (String × ℕ)) (extra : ℕ)
    : Type 0 where
  pub size : length after ≤ length before + extra
  pub old : (a : String) → IsKey a before → IsKey a after
  pub new : (a : String) → known a → IsKey a after

add_edges-IsCounted :
    (known : List String) (alias : String) (ds : List String) (g g' : Graph)
    → IsKey alias g.in_degree
    → add_edges known alias ds g ≡ built g'
    → IsCounted (λ a. ⊥) g.in_degree g'.in_degree 0
unfolding add_edges add_edge
add_edges-IsCounted known alias [] g g' here e =
    let same : g ≡ g' = cc in
    record {
      size = omega (arith, ap (λ (z : Graph). length z.in_degree) same);
      old = λ a k. subst (λ (z : Graph). IsKey a z.in_degree) same k;
      new = λ a n. absurd n;
    }
add_edges-IsCounted known alias (d ∷ ds) g g' here e = elim (Bool-cases (contains known d)) [
  | inr unknown ↦ cc (rw unknown at e)
  | inl fine ↦
      let next = add_edge alias d g in
      let kept : (a : String) → IsKey a g.in_degree → IsKey a next.in_degree =
        λ a k. IsKey-insert a alias (lookup_or 0 alias g.in_degree + 1) g.in_degree (inr k) in
      let c = add_edges-IsCounted known alias ds next g' (kept alias here) (rw fine at e) in
      record {
        size = omega (
          arith,
          c.size,
          length-insert_key alias (lookup_or 0 alias g.in_degree + 1) g.in_degree here,
        );
        old = λ a k. c.old a (kept a k);
        new = λ a n. absurd n;
      }
]

with_entry-IsCounted :
    (alias : String) (g : Graph)
    → IsCounted
        (λ a. a ≡ alias)
        g.in_degree
        (with_entry (lookup alias g.in_degree) alias g).in_degree
        1
unfolding with_entry
with_entry-IsCounted alias g = elim (Option-cases (lookup alias g.in_degree)) [
  | inl missing ↦ rw missing (record {
    size = length-insert_any alias 0 g.in_degree;
    old = λ a k. IsKey-insert a alias 0 g.in_degree (inr k);
    new = λ a same. IsKey-insert a alias 0 g.in_degree (inl same);
  })
  | inr (n, found) ↦ rw found (record {
    size = omega arith;
    old = λ a k. k;
    new = λ a same. (n, ap (λ k. lookup k g.in_degree) same ∙ found);
  })
]

pub built-cases :
    (b : Built)
    → ((g : Graph) × (b ≡ built g)) ⊎ ((a : String) × (d : String) × (b ≡ unknown_repo a d))
built-cases (built g) = inl (g, refl)
built-cases (unknown_repo a d) = inr (a, d, refl)

pub build-IsCounted :
    (known : List String) (rs : List RepoNode) (g g' : Graph)
    → build known rs g ≡ built g'
    → IsCounted
        (λ a. contains (map (λ r. r.alias) rs) a ≡ true)
        g.in_degree
        g'.in_degree
        (length rs)
unfolding build build_next
build-IsCounted known [] g g' e =
    let same : g ≡ g' = cc in
    record {
      size = omega (arith, ap (λ (z : Graph). length z.in_degree) same);
      old = λ a k. subst (λ (z : Graph). IsKey a z.in_degree) same k;
      new = λ a n. cc;
    }
build-IsCounted known (r ∷ rs) g g' e =
    let entry = with_entry-IsCounted r.alias g in
    let start = with_entry (lookup r.alias g.in_degree) r.alias g in
    elim (built-cases (add_edges known r.alias r.depends_on start)) [
      | inr (a, d, bad) ↦ cc (rw bad at e)
      | inl (next, good) ↦
          let edges =
            add_edges-IsCounted known r.alias r.depends_on start next (entry.new r.alias refl)
              good in
          let later = build-IsCounted known rs next g' (rw good at e) in
          record {
            size = omega (arith, entry.size, edges.size, later.size);
            old = λ a k. later.old a (edges.old a (entry.old a k));
            new = λ a n. elim (String-cases a r.alias) [
              | inl same ↦ later.old a (edges.old a (entry.new a same))
              | inr apart ↦ later.new a (ground (arith, n, apart, eq_iff r.alias a))
            ];
          }
    ]

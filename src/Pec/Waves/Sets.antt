-- ===== src/Pec/Waves/Sets.antt =====
-- The sets of dependencies that the waves are built from.
use the_foundry.Prelude.{
  ◌≤◌, ◌<◌, ◌≡◌, inl, inr, refl, sym, ap, ◌∙◌, Bool, true, not, ◌&&◌, ◌||◌, ◌==◌, eq_iff, String,
  List, [], ◌∷◌, arith, length, any, any-sort_by, contains, sort_strings, str_ltb, String-cases,
}
use the_foundry.Plan.{Task}
use the_foundry.Pec.Waves.{add_to_set, add_all, remove_from_set, deps_of}

-- Some task of this id declares the dependency.
abbrev pub depends : String → String → List Task → Bool
depends id d tasks = any (λ t. t.id == id && contains t.depends_on d) tasks

contains_same :
    (x d : String) (set : List String) → x ≡ d → contains set x ≡ true → contains set d ≡ true
contains_same x d set same e = ap (contains set) (sym same) ∙ e

contains-add_to_set :
    (x d : String) (set : List String) → contains (add_to_set x set) d ≡ (x == d || contains set d)
unfolding add_to_set
contains-add_to_set x d set = elim (String-cases x d) [
  | inl same ↦ ground (arith, eq_iff x d, contains_same x d set same)
  | inr apart ↦ ground (arith, eq_iff x d)
]

pub contains-add_all :
    (xs : List String) (d : String) (set : List String)
    → contains (add_all xs set) d ≡ (contains xs d || contains set d)
unfolding add_all
contains-add_all [] d set = refl
contains-add_all (x ∷ xs) d set =
    ground (arith, contains-add_to_set x d (add_all xs set), contains-add_all xs d set)

pub contains-deps_of :
    (id d : String) (tasks : List Task) → contains (deps_of id tasks) d ≡ depends id d tasks
unfolding deps_of
contains-deps_of id d [] = refl
contains-deps_of id d (t ∷ ts) =
    ground (arith, contains-add_all t.depends_on d (deps_of id ts), contains-deps_of id d ts)

pub contains-remove :
    (x d : String) (set : List String)
    → contains (remove_from_set x set) d ≡ (not (x == d) && contains set d)
unfolding remove_from_set
contains-remove x d [] = ground arith
contains-remove x d (y ∷ set) =
    ground (arith, eq_iff y x, eq_iff x d, eq_iff y d, contains-remove x d set)

remove-le : (x : String) (set : List String) → length (remove_from_set x set) ≤ length set
unfolding remove_from_set
remove-le x [] = omega arith
remove-le x (y ∷ set) = ground (arith, remove-le x set)

pub remove-lt :
    (x : String) (set : List String)
    → contains set x ≡ true
    → length (remove_from_set x set) < length set
unfolding remove_from_set
remove-lt x [] e = cc
remove-lt x (y ∷ set) e = ground (arith, remove-le x set, remove-lt x set)

contains-any : (xs : List String) (v : String) → contains xs v ≡ any (λ x. x == v) xs
contains-any [] v = refl
contains-any (x ∷ xs) v = ground (arith, contains-any xs v)

pub contains-sort_strings :
    (xs : List String) (v : String) → contains (sort_strings xs) v ≡ contains xs v
unfolding sort_strings
contains-sort_strings xs v =
    contains-any _ v ∙ any-sort_by str_ltb (λ x. x == v) xs ∙ sym (contains-any xs v)

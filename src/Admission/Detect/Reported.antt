-- ===== src/Admission/Detect/Reported.antt =====
-- What internal/admission/detect never loses: an effect that was found stays in the map `seen`, and
-- so is reported.
use Prim.Native.String.{◌++◌ as append}
use the_foundry.Prelude.{
  ◌≡◌, inl, inr, refl, ◌∙◌, sym, ap, Bool, true, false, String, Option, none, some, List, [], ◌∷◌,
  ◌++◌, ◌==◌, eq_iff, arith, any, All, Bool-cases, bar_free, key_inj, insert,
}
use the_foundry.Plan.{EffectKind, Effect, Task}
use the_foundry.Admission.Detect.{
  Seen, add, when, values, file_kind, add_kind, destroys_file, scan_file, scan_files, add_hosts,
  destroys, bills, deploys, scan_command, scan_commands, scan_tasks,
}

-- Every entry stands under the key of its effect, whose kind holds no bar.
abbrev pub IsKeyed : Seen → Type 0
IsKeyed = All (λ entry.
    (entry.0 ≡ append entry.1.kind (append "|" entry.1.target)) × (bar_free entry.1.kind ≡ true))

abbrev made : EffectKind → String → Effect
made kind target = record { kind = kind; target = target }

add-IsKeyed :
    (kind : EffectKind) (target : String) (seen : Seen)
    → bar_free kind ≡ true
    → IsKeyed seen
    → IsKeyed (add kind target seen)
unfolding add insert
add-IsKeyed kind target [] free k = ((refl, free), tt)
add-IsKeyed kind target ((j, e) ∷ seen) free k =
    elim (Bool-cases (j == append kind (append "|" target))) [
      | inl same ↦ rw same ((refl, free), k.1)
      | inr other ↦ rw other (k.0, add-IsKeyed kind target seen free k.1)
    ]

abbrev pub bar_free_option : Option EffectKind → Bool
bar_free_option none = true
bar_free_option (some kind) = bar_free kind

file_kind-bar_free : (lower : String) → bar_free_option (file_kind lower) ≡ true
unfolding file_kind
file_kind-bar_free lower = ground arith

module _ (p : Effect → Bool) where
  pub any-add_new :
      (kind : EffectKind) (target : String) (seen : Seen)
      → p (made kind target) ≡ true
      → any p (values (add kind target seen)) ≡ true
  unfolding add insert
  any-add_new kind target [] h = ground arith
  any-add_new kind target ((j, e) ∷ seen) h = ground (arith, any-add_new kind target seen h)

  pub any-add_old :
      (kind : EffectKind) (target : String) (seen : Seen)
      → bar_free kind ≡ true
      → IsKeyed seen
      → any p (values seen) ≡ true
      → any p (values (add kind target seen)) ≡ true
  unfolding add insert
  any-add_old kind target [] free k h = cc
  any-add_old kind target ((j, e) ∷ seen) free k h =
      let key = append kind (append "|" target) in
      elim (Bool-cases (j == key)) [
        | inl same ↦
            let keys : append e.kind (append "|" e.target) ≡ key =
              sym k.0.0 ∙ (eq_iff j key).0 same in
            let parts = key_inj e.kind kind e.target target k.0.1 free keys in
            let unchanged : e ≡ made kind target =
              λ i. record { kind = parts.0 i; target = parts.1 i } in
            rw same (ground (arith, ap p unchanged))
        | inr other ↦ elim (Bool-cases (p e)) [
          | inl here ↦ rw (other, here)
          | inr later ↦ rw (other, later) (any-add_old kind target seen free k.1 (rw later at h))
        ]
      ]

  -- A step of the scan that keeps the keys and loses no effect.
  pub record Grows (f : Seen → Seen) : Type 0 where
    pub keyed : (seen : Seen) → IsKeyed seen → IsKeyed (f seen)
    pub kept :
        (seen : Seen) → IsKeyed seen → any p (values seen) ≡ true → any p (values (f seen)) ≡ true

  pub Grows-id : Grows (λ seen. seen)
  Grows-id = record { keyed = λ seen k. k; kept = λ seen k h. h }

  pub Grows-then : {f g : Seen → Seen} → Grows f → Grows g → Grows (λ seen. g (f seen))
  Grows-then {f} {g} a b = record {
    keyed = λ seen k. b.keyed (f seen) (a.keyed seen k);
    kept = λ seen k h. b.kept (f seen) (a.keyed seen k) (a.kept seen k h);
  }

  pub Grows-add :
      (kind : EffectKind) (target : String) → bar_free kind ≡ true → Grows (add kind target)
  Grows-add kind target free = record {
    keyed = λ seen k. add-IsKeyed kind target seen free k;
    kept = λ seen k h. any-add_old kind target seen free k h;
  }

  pub Grows-when : (test : Bool) {f : Seen → Seen} → Grows f → Grows (when test f)
  unfolding when
  Grows-when true a = a
  Grows-when false a = Grows-id

  pub Grows-add_kind :
      (o : Option EffectKind) (file : String) → bar_free_option o ≡ true → Grows (add_kind o file)
  unfolding add_kind
  Grows-add_kind none file free = Grows-id
  Grows-add_kind (some kind) file free = Grows-add kind file free

module _ (p : Effect → Bool) (to_lower : String → String) (hosts : String → List String) where
  pub Grows-scan_file : (file : String) → Grows p (scan_file to_lower hosts file)
  unfolding scan_file
  Grows-scan_file file =
      Grows-then p
        (Grows-add_kind p (file_kind (to_lower file)) file (file_kind-bar_free (to_lower file)))
        (Grows-when p (destroys_file (to_lower file)) (Grows-add p "destructive" file refl))

  pub Grows-scan_files : (files : List String) → Grows p (scan_files to_lower hosts files)
  unfolding scan_files
  Grows-scan_files [] = Grows-id p
  Grows-scan_files (file ∷ files) = Grows-then p (Grows-scan_file file) (Grows-scan_files files)

  pub Grows-add_hosts : (names : List String) → Grows p (add_hosts names)
  unfolding add_hosts
  Grows-add_hosts [] = Grows-id p
  Grows-add_hosts (host ∷ names) =
      Grows-then p (Grows-add p "network" host refl) (Grows-add_hosts names)

  pub Grows-scan_command : (cmd : String) → Grows p (scan_command to_lower hosts cmd)
  unfolding scan_command
  Grows-scan_command cmd =
      Grows-then p
        (Grows-then p
          (Grows-then p
            (Grows-when p (destroys (to_lower cmd)) (Grows-add p "destructive" cmd refl))
            (Grows-when p (bills (to_lower cmd)) (Grows-add p "billing" cmd refl)))
          (Grows-when p (deploys (to_lower cmd)) (Grows-add p "deploy" cmd refl)))
        (Grows-add_hosts (hosts cmd))

  pub Grows-scan_commands : (cmds : List String) → Grows p (scan_commands to_lower hosts cmds)
  unfolding scan_commands
  Grows-scan_commands [] = Grows-id p
  Grows-scan_commands (cmd ∷ cmds) =
      Grows-then p (Grows-scan_command cmd) (Grows-scan_commands cmds)

  pub Grows-scan_tasks : (tasks : List Task) → Grows p (scan_tasks to_lower hosts tasks)
  unfolding scan_tasks
  Grows-scan_tasks [] = Grows-id p
  Grows-scan_tasks (task ∷ tasks) =
      Grows-then p
        (Grows-then p (Grows-scan_files task.files)
          (Grows-scan_commands (task.commands ++ task.validation_commands)))
        (Grows-scan_tasks tasks)

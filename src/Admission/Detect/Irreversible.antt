-- ===== src/Admission/Detect/Irreversible.antt =====
-- Plans with irreversible file names or commands, from detection to the tier.
use the_foundry.Prelude.{
  ◌≡◌, refl, ◌∙◌, inl, inr, Bool, true, not, arith, ◌&&◌, ◌||◌, String, some, List, [], ◌∷◌, ◌++◌,
  any, Bool-cases, any-sort_by,
}
use the_foundry.Plan.{Effect, Task, Document}
use the_foundry.Admission.Detect.{
  Seen, add, when, effect_less, values, destroys_file, has_part, is_lockfile, deploys_file,
  holds_secret, permits, file_kind, add_kind, scan_file, scan_files, destroys, bills, deploys,
  scan_command, scan_commands, scan_tasks, from_document,
}
use the_foundry.Admission.Detect.Reported.{
  IsKeyed, any-add_new, Grows-when, Grows-add_hosts, Grows-add, Grows-scan_file, Grows-scan_files,
  Grows-scan_command, Grows-scan_commands, Grows-scan_tasks,
}
use the_foundry.Admission.{kind_in}

-- The kinds that need a human.
abbrev pub irreversible : Effect → Bool
irreversible = kind_in ("billing" ∷ "permission" ∷ "destructive" ∷ [])

abbrev pub bills_file : String → Bool
bills_file lower = not (is_lockfile lower || has_part lower "migration") && bills lower

abbrev pub permits_file : String → Bool
permits_file lower =
    not (
      is_lockfile lower
      || has_part lower "migration"
      || bills lower
      || deploys_file lower
      || holds_secret lower)
    && permits lower

file_kind-billing : (lower : String) → bills_file lower ≡ true → file_kind lower ≡ some "billing"
unfolding file_kind
file_kind-billing lower e = ground (arith, e)

file_kind-permission :
    (lower : String) → permits_file lower ≡ true → file_kind lower ≡ some "permission"
unfolding file_kind
file_kind-permission lower e = ground (arith, e)

module _ (to_lower : String → String) (hosts : String → List String) where
  -- A command that drops or truncates a table, or that names a payment service.
  abbrev pub command_flagged : String → Bool
  command_flagged cmd = destroys (to_lower cmd) || bills (to_lower cmd)

  -- A file whose name says that it drops or truncates; one that names a payment service, if it is no
  -- lockfile and no migration; or one that names permissions, if it is neither these nor a deployment
  -- nor a secret.
  abbrev pub file_flagged : String → Bool
  file_flagged file =
      let lower = to_lower file in destroys_file lower || bills_file lower || permits_file lower

  abbrev pub task_flagged : Task → Bool
  task_flagged t =
      any file_flagged t.files || any command_flagged (t.commands ++ t.validation_commands)

  abbrev Found : Seen → Type 0
  Found seen = any irreversible (values seen) ≡ true

  scan_file-Found :
      (file : String) (seen : Seen)
      → file_flagged file ≡ true
      → Found (scan_file to_lower hosts file seen)
  unfolding scan_file when add_kind
  scan_file-Found file seen e =
      let lower = to_lower file in
      elim (Bool-cases (destroys_file lower)) [
        | inl drops ↦ rw drops (any-add_new irreversible "destructive" file _ refl)
        | inr keeps ↦ elim (Bool-cases (bills_file lower)) [
          | inl b ↦
              rw (keeps, file_kind-billing lower b) (any-add_new irreversible "billing" file _ refl)
          | inr nb ↦
              let p : permits_file lower ≡ true = rw (keeps, nb) at e in
              rw (keeps, file_kind-permission lower p)
                (any-add_new irreversible "permission" file _ refl)
        ]
      ]

  scan_files-Found :
      (files : List String) (seen : Seen)
      → IsKeyed seen
      → any file_flagged files ≡ true
      → Found (scan_files to_lower hosts files seen)
  unfolding scan_files
  scan_files-Found [] seen k e = cc
  scan_files-Found (file ∷ files) seen k e =
      let keyed = (Grows-scan_file irreversible to_lower hosts file).keyed seen k in
      elim (Bool-cases (file_flagged file)) [
        | inl flagged ↦
            (Grows-scan_files irreversible to_lower hosts files).kept _ keyed
              (scan_file-Found file seen flagged)
        | inr clean ↦ scan_files-Found files _ keyed (rw clean at e)
      ]

  flagged :
      (cmd : String) (seen : Seen)
      → IsKeyed seen
      → command_flagged cmd ≡ true
      → Found (
          when
            (bills (to_lower cmd))
            (add "billing" cmd)
            (when (destroys (to_lower cmd)) (add "destructive" cmd) seen))
  flagged cmd seen k e =
      let lower = to_lower cmd in
      let d =
        Grows-when irreversible (destroys lower) (Grows-add irreversible "destructive" cmd refl) in
      let b = Grows-when irreversible (bills lower) (Grows-add irreversible "billing" cmd refl) in
      elim (Bool-cases (destroys lower)) [
        | inl drops ↦
            b.kept _ (d.keyed seen k)
              (rw drops (unfold when in any-add_new irreversible "destructive" cmd seen refl))
        | inr keeps ↦
            rw (rw keeps at e) (unfold when in any-add_new irreversible "billing" cmd _ refl)
      ]

  scan_command-Found :
      (cmd : String) (seen : Seen)
      → IsKeyed seen
      → command_flagged cmd ≡ true
      → Found (scan_command to_lower hosts cmd seen)
  unfolding scan_command
  scan_command-Found cmd seen k e =
      let lower = to_lower cmd in
      let d =
        Grows-when irreversible (destroys lower) (Grows-add irreversible "destructive" cmd refl) in
      let b = Grows-when irreversible (bills lower) (Grows-add irreversible "billing" cmd refl) in
      let p = Grows-when irreversible (deploys lower) (Grows-add irreversible "deploy" cmd refl) in
      let seen_d = when (destroys lower) (add "destructive" cmd) seen in
      let keyed_d = d.keyed seen k in
      let keyed_b = b.keyed seen_d keyed_d in
      let found : Found (when (bills lower) (add "billing" cmd) seen_d) = flagged cmd seen k e in
      (Grows-add_hosts irreversible to_lower hosts (hosts cmd)).kept _ (p.keyed _ keyed_b)
        (p.kept _ keyed_b found)

  scan_commands-Found :
      (cmds : List String) (seen : Seen)
      → IsKeyed seen
      → any command_flagged cmds ≡ true
      → Found (scan_commands to_lower hosts cmds seen)
  unfolding scan_commands
  scan_commands-Found [] seen k e = cc
  scan_commands-Found (cmd ∷ cmds) seen k e =
      let keyed = (Grows-scan_command irreversible to_lower hosts cmd).keyed seen k in
      elim (Bool-cases (command_flagged cmd)) [
        | inl flagged ↦
            (Grows-scan_commands irreversible to_lower hosts cmds).kept _ keyed
              (scan_command-Found cmd seen k flagged)
        | inr clean ↦ scan_commands-Found cmds _ keyed (rw clean at e)
      ]

  scan_tasks-Found :
      (tasks : List Task) (seen : Seen)
      → IsKeyed seen
      → any task_flagged tasks ≡ true
      → Found (scan_tasks to_lower hosts tasks seen)
  unfolding scan_tasks
  scan_tasks-Found [] seen k e = cc
  scan_tasks-Found (task ∷ tasks) seen k e =
      let cmds = task.commands ++ task.validation_commands in
      let files = Grows-scan_files irreversible to_lower hosts task.files in
      let commands = Grows-scan_commands irreversible to_lower hosts cmds in
      let after_files = files.keyed seen k in
      let after_commands = commands.keyed _ after_files in
      let later = Grows-scan_tasks irreversible to_lower hosts tasks in
      elim (Bool-cases (any file_flagged task.files)) [
        | inl f ↦
            later.kept _ after_commands
              (commands.kept _ after_files (scan_files-Found task.files seen k f))
        | inr nf ↦ elim (Bool-cases (any command_flagged cmds)) [
          | inl c ↦ later.kept _ after_commands (scan_commands-Found cmds _ after_files c)
          | inr nc ↦ scan_tasks-Found tasks _ after_commands (rw (nf, nc) at e)
        ]
      ]

  -- A document with a flagged file or command has an irreversible effect among the detected ones.
  pub detected_irreversible :
      (doc : Document)
      → any task_flagged doc.tasks ≡ true
      → any irreversible (from_document to_lower hosts doc) ≡ true
  unfolding from_document
  detected_irreversible doc e =
      any-sort_by effect_less irreversible (values (scan_tasks to_lower hosts doc.tasks []))
      ∙ scan_tasks-Found doc.tasks [] tt e

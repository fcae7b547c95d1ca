-- ===== src/Admission/Detect.antt =====
-- internal/admission/detect/detect.go: the effects that a plan's files and commands show.
-- Parameters: `strings.ToLower`, and the hosts that the URL pattern finds in a command (the first
-- group of each match of `hostPattern`).
pub mod Reported
pub mod Irreversible
use Prim.Native.String.{len, slice, ◌++◌ as append}
use text.Mathlib.Text.{find?}
use the_foundry.Prelude.{
  ℕ, ◌-◌, Bool, true, false, ◌&&◌, ◌||◌, String, Option, none, some, List, [], ◌∷◌, ◌++◌, ◌==◌, leb,
  insert, str_ltb, sort_by, if◌then◌else◌,
}
use the_foundry.Plan.{EffectKind, Effect, Task, Document}

-- strings.Contains and strings.HasSuffix
abbrev pub has_part : String → String → Bool
has_part s part = elim (find? s part) [ none ↦ false | some i ↦ true ]

abbrev pub ends_with : String → String → Bool
ends_with s suffix = leb (len suffix) (len s) && slice s (len s - len suffix) (len s) == suffix

-- The map `seen`, from the key of an effect to the effect.
abbrev pub Seen : Type 0
Seen = List (String × Effect)

-- The closure `add`.
unfoldable pub add : EffectKind → String → Seen → Seen
add kind target seen =
    insert (append kind (append "|" target)) (record { kind = kind; target = target }) seen

unfoldable pub when : Bool → (Seen → Seen) → Seen → Seen
when test act seen = if test then act seen else seen

abbrev pub effect_less : Effect → Effect → Bool
effect_less a b = if a.kind == b.kind then str_ltb a.target b.target else str_ltb a.kind b.kind

abbrev pub values : Seen → List Effect
values [] = []
values ((k, e) ∷ seen) = e ∷ values seen

-- The tests of the `switch` on a file name, in lower case.
unfoldable pub is_lockfile : String → Bool
is_lockfile lower =
    ends_with lower "go.mod"
    || ends_with lower "go.sum"
    || ends_with lower "package.json"
    || ends_with lower "package-lock.json"
    || ends_with lower "pnpm-lock.yaml"
    || ends_with lower "yarn.lock"

unfoldable pub bills : String → Bool
bills lower = has_part lower "billing" || has_part lower "stripe" || has_part lower "payment"

unfoldable pub deploys_file : String → Bool
deploys_file lower = has_part lower "deploy" || has_part lower "fly.toml"

unfoldable pub holds_secret : String → Bool
holds_secret lower = has_part lower "secret" || has_part lower ".env"

unfoldable pub permits : String → Bool
permits lower = has_part lower "permission" || has_part lower "authz" || has_part lower "rbac"

-- The `switch`; `none` is no case.
unfoldable pub file_kind : String → Option EffectKind
file_kind lower =
    if is_lockfile lower
    then some "dependency"
    else if has_part lower "migration"
    then some "migration"
    else if bills lower
    then some "billing"
    else if deploys_file lower
    then some "deploy"
    else if holds_secret lower
    then some "secret"
    else if permits lower
    then some "permission"
    else none

unfoldable pub add_kind : Option EffectKind → String → Seen → Seen
add_kind none file seen = seen
add_kind (some kind) file seen = add kind file seen

unfoldable pub destroys_file : String → Bool
destroys_file lower = has_part lower "drop" || has_part lower "truncate"

unfoldable pub add_hosts : List String → Seen → Seen
add_hosts [] seen = seen
add_hosts (host ∷ rest) seen = add_hosts rest (add "network" host seen)

unfoldable pub destroys : String → Bool
destroys lower = has_part lower "drop table" || has_part lower "truncate "

unfoldable pub deploys : String → Bool
deploys lower = has_part lower "flyctl" || has_part lower "vercel" || has_part lower "deploy"

module _ (to_lower : String → String) (hosts : String → List String) where
  unfoldable pub scan_file : String → Seen → Seen
  scan_file file seen =
      when (destroys_file (to_lower file)) (add "destructive" file)
        (add_kind (file_kind (to_lower file)) file seen)

  unfoldable pub scan_files : List String → Seen → Seen
  scan_files [] seen = seen
  scan_files (file ∷ files) seen = scan_files files (scan_file file seen)

  unfoldable pub scan_command : String → Seen → Seen
  scan_command cmd seen =
      let lower = to_lower cmd in
      add_hosts (hosts cmd) (
        when (deploys lower) (add "deploy" cmd) (
          when (bills lower) (add "billing" cmd)
            (when (destroys lower) (add "destructive" cmd) seen)))

  unfoldable pub scan_commands : List String → Seen → Seen
  scan_commands [] seen = seen
  scan_commands (cmd ∷ cmds) seen = scan_commands cmds (scan_command cmd seen)

  unfoldable pub scan_tasks : List Task → Seen → Seen
  scan_tasks [] seen = seen
  scan_tasks (task ∷ tasks) seen =
      scan_tasks tasks
        (scan_commands (task.commands ++ task.validation_commands) (scan_files task.files seen))

  unfoldable pub from_document : Document → List Effect
  from_document doc = sort_by effect_less (values (scan_tasks doc.tasks []))

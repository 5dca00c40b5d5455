-- ===== src/Daemon/Hooks.antt =====
-- The setup and the cleanup of the evdev hooks in crates/daemon/src/evdev_hooks.rs. A script's exit code, or
-- none where it could not be run, is a function of what has run before; whether a path is a file is a
-- function of the path. The marker file, the search for the scripts and log lines are left out.
pub mod Rollback
mod Examples
use mathlib.Core.List.{reverse}
use daklak_rs.Prelude.{
  ℕ, Bool, true, false, not, ◌&&◌, ◌||◌, List, [], ◌∷◌, ◌++◌, Option, none, some, leb, ◌==◌,
  if◌then◌else◌, all, is_empty,
}
use daklak_rs.Text.{Text}

pub record HookSpec : Type 0 where
  pub name : Text
  pub set_path : Text
  pub unset_path : Text

pub data SetupOutcome : Type 0 where
  applied skipped : Text → SetupOutcome

pub data HookPhase : Type 0 where
  set unset : HookPhase

-- A script that has run, and its exit code.
pub record HookRun : Type 0 where
  pub phase : HookPhase
  pub hook : HookSpec
  pub exit : Option ℕ

-- `HookCommandRunner`: the scripts that have run, the first first, and the one to run.
abbrev pub Runner : Type 0
Runner = List HookRun → HookPhase → HookSpec → Option ℕ

-- The hooks that are applied and the outcomes; an exit code that stops; a script that could not be run.
pub data SetupResult : Type 0 where
  set_up : List HookSpec → List SetupOutcome → SetupResult
  set_failed : HookSpec → ℕ → SetupResult
  run_failed : SetupResult

-- After one hook the setup stops, or goes on.
pub data Verdict : Type 0 where
  stop : List HookRun → SetupResult → Verdict
  go_on : List HookSpec → List SetupOutcome → List HookRun → Verdict

-- The bytes of a name: ASCII letters, digits, `_` and `-`.
abbrev pub is_name_byte : ℕ → Bool
is_name_byte b =
    (leb b'0' b && leb b b'9')
    || (leb b'A' b && leb b b'Z')
    || (leb b'a' b && leb b b'z')
    || b == b'_'
    || b == b'-'

unfoldable pub validate_hook_name : Text → Bool
validate_hook_name name = not (is_empty name) && all is_name_byte name

unfoldable pub hook_scripts_present : (Text → Bool) → HookSpec → Bool
hook_scripts_present is_file hook = is_file hook.set_path && is_file hook.unset_path

module _ (runner : Runner) where
  abbrev pub record_run : HookPhase → HookSpec → List HookRun → List HookRun
  record_run phase hook ran =
      ran ++ record { phase = phase; hook = hook; exit = runner ran phase hook } ∷ []

  -- 0 and 10 are good exit codes.
  abbrev pub is_clean : Option ℕ → Bool
  is_clean none = false
  is_clean (some code) = code == 0 || code == 10

  -- Each hook is undone whatever became of those before; true where all went well.
  unfoldable pub cleanup_loop : List HookSpec → List HookRun → List HookRun × Bool
  cleanup_loop [] ran = (ran, true)
  cleanup_loop (hook ∷ hooks) ran =
      let (ran', clean) = cleanup_loop hooks (record_run unset hook ran) in
      (ran', is_clean (runner ran unset hook) && clean)

  unfoldable pub run_cleanup_hooks : List HookSpec → List HookRun → List HookRun × Bool
  unfolding cleanup_loop
  run_cleanup_hooks hooks ran = cleanup_loop (reverse hooks) ran

  -- What becomes of a hook whose set script has run.
  unfoldable pub on_exit :
      Option ℕ → HookSpec → List HookSpec → List SetupOutcome → List HookRun → Verdict
  unfolding run_cleanup_hooks
  on_exit none hook done outcomes ran = stop ran run_failed
  on_exit (some code) hook done outcomes ran =
      if code == 0
      then go_on (done ++ hook ∷ []) (outcomes ++ applied hook.name ∷ []) ran
      else if code == 10
      then go_on done (outcomes ++ skipped hook.name ∷ []) ran
      else stop (run_cleanup_hooks done ran).0 (set_failed hook code)

  unfoldable pub try_hook :
      (Text → Bool) → HookSpec → List HookSpec → List SetupOutcome → List HookRun → Verdict
  unfolding hook_scripts_present on_exit
  try_hook is_file hook done outcomes ran =
      if hook_scripts_present is_file hook
      then on_exit (runner ran set hook) hook done outcomes (record_run set hook ran)
      else go_on done (outcomes ++ skipped hook.name ∷ []) ran

  unfoldable pub setup_loop :
      (Text → Bool)
      → List HookSpec
      → List HookSpec
      → List SetupOutcome
      → List HookRun
      → List HookRun × SetupResult
  unfolding try_hook
  setup_loop is_file [] done outcomes ran = (ran, set_up done outcomes)
  setup_loop is_file (hook ∷ hooks) done outcomes ran =
      elim (try_hook is_file hook done outcomes ran) [
        | stop ran' result ↦ (ran', result)
        | go_on done' outcomes' ran' ↦ setup_loop is_file hooks done' outcomes' ran'
      ]

  unfoldable pub run_setup_hooks : (Text → Bool) → List HookSpec → List HookRun × SetupResult
  unfolding setup_loop
  run_setup_hooks is_file hooks = setup_loop is_file hooks [] [] []

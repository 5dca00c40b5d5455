-- ===== src/Daemon/Hooks/Examples.antt =====
-- The theorem on the evdev hooks of crates/daemon at a concrete input.
use daklak_rs.Prelude.{Bool, true, List, [], ◌∷◌, some, ◌==◌, length, if◌then◌else◌}
use daklak_rs.Text.{Text, codes}
use daklak_rs.Daemon.Hooks.{HookSpec, Runner, run_setup_hooks}
use daklak_rs.Daemon.Hooks.Rollback.{IsSettled, run_setup_hooks-IsSettled}

abbrev hook_of : Text → HookSpec
hook_of name = record { name = name; set_path = name; unset_path = name }

abbrev hooks : List HookSpec
hooks = hook_of (codes "kwin") ∷ hook_of (codes "sway") ∷ hook_of (codes "x11") ∷ []

-- The third script fails.
abbrev runner : Runner
runner ran phase hook = some (if length ran == 2 then 1 else 0)

abbrev on_disk : Text → Bool
on_disk path = true

run_setup_hooks-IsSettled_example :
    let r = run_setup_hooks runner on_disk hooks in IsSettled r.1 r.0
run_setup_hooks-IsSettled_example = run_setup_hooks-IsSettled runner on_disk hooks

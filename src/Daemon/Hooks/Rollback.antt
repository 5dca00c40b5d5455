-- ===== src/Daemon/Hooks/Rollback.antt =====
-- What `run_setup_hooks` of crates/daemon/src/evdev_hooks.rs leaves applied.
use mathlib.Core.List.{reverse}
use daklak_rs.Prelude.{
  ℕ, ◌≡◌, refl, sym, ap, ◌∙◌, Bool, List, [], ◌∷◌, ◌++◌, append-nil, append_assoc, Option, none,
  some, ◌==◌, if◌then◌else◌, Bool-cases, inl, inr,
}
use daklak_rs.Text.{Text}
use daklak_rs.Daemon.Hooks.{
  HookSpec, SetupOutcome, HookPhase, set, unset, HookRun, Runner, SetupResult, set_up, set_failed,
  run_failed, hook_scripts_present, Verdict, stop, go_on, on_exit, try_hook, record_run,
  cleanup_loop, run_cleanup_hooks, setup_loop, run_setup_hooks,
}

-- The hook of a set script that has run with exit code 0, and that of an unset script that has run.
abbrev taken : HookPhase → Option ℕ → HookSpec → List HookSpec
taken set (some code) hook = if code == 0 then hook ∷ [] else []
taken set none hook = []
taken unset _ hook = []

abbrev undone : HookPhase → HookSpec → List HookSpec
undone set hook = []
undone unset hook = hook ∷ []

-- The hooks that were applied, and those whose unset script was run, in order.
abbrev pub applied_of : List HookRun → List HookSpec
applied_of [] = []
applied_of (r ∷ rs) = taken r.phase r.exit r.hook ++ applied_of rs

abbrev pub unset_of : List HookRun → List HookSpec
unset_of [] = []
unset_of (r ∷ rs) = undone r.phase r.hook ++ unset_of rs

applied_of-append : (a b : List HookRun) → applied_of (a ++ b) ≡ applied_of a ++ applied_of b
applied_of-append [] b = refl
applied_of-append (r ∷ a) b =
    ap (λ x. taken r.phase r.exit r.hook ++ x) (applied_of-append a b)
    ∙ sym (append_assoc (taken r.phase r.exit r.hook) (applied_of a) (applied_of b))

unset_of-append : (a b : List HookRun) → unset_of (a ++ b) ≡ unset_of a ++ unset_of b
unset_of-append [] b = refl
unset_of-append (r ∷ a) b =
    ap (λ x. undone r.phase r.hook ++ x) (unset_of-append a b)
    ∙ sym (append_assoc (undone r.phase r.hook) (unset_of a) (unset_of b))

-- What a setup owes: all that it reports as applied is in force; a hook that fails has the others undone, the
-- last first; a script that could not be run has none undone.
abbrev pub IsSettled : SetupResult → List HookRun → Type 0
IsSettled (set_up done outcomes) ran = (applied_of ran ≡ done) × (unset_of ran ≡ [])
IsSettled (set_failed hook code) ran = unset_of ran ≡ reverse (applied_of ran)
IsSettled run_failed ran = unset_of ran ≡ []

module _ (runner : Runner) where
  applied_of-set :
      (hook : HookSpec) (ran : List HookRun) (o : Option ℕ)
      → runner ran set hook ≡ o
      → applied_of (record_run runner set hook ran) ≡ applied_of ran ++ taken set o hook
  applied_of-set hook ran o e =
      applied_of-append ran _
      ∙ ap (λ x. applied_of ran ++ x)
          (append-nil (taken set (runner ran set hook) hook) ∙ ap (λ x. taken set x hook) e)

  unset_of-set :
      (hook : HookSpec) (ran : List HookRun)
      → unset_of (record_run runner set hook ran) ≡ unset_of ran
  unset_of-set hook ran = unset_of-append ran _ ∙ append-nil (unset_of ran)

  cleanup_lem :
      (hooks : List HookSpec) (ran : List HookRun)
      → let ran' = (cleanup_loop runner hooks ran).0 in
        (unset_of ran' ≡ unset_of ran ++ hooks) × (applied_of ran' ≡ applied_of ran)
  unfolding cleanup_loop
  cleanup_lem [] ran = (sym (append-nil (unset_of ran)), refl)
  cleanup_lem (hook ∷ hooks) ran =
      let next = record_run runner unset hook ran in
      let (gone, same) = cleanup_lem hooks next in
      (
        gone
            ∙ ap (λ x. x ++ hooks) (unset_of-append ran _)
            ∙ append_assoc (unset_of ran) (hook ∷ []) hooks,
        same ∙ applied_of-append ran _ ∙ append-nil (applied_of ran),
      )

  -- A verdict that leaves things as they should be.
  abbrev IsSound : Verdict → Type 0
  IsSound (stop ran result) = IsSettled result ran
  IsSound (go_on done outcomes ran) = (applied_of ran ≡ done) × (unset_of ran ≡ [])

  on_exit-IsSound :
      (o : Option ℕ) (hook : HookSpec) (done : List HookSpec) (outcomes : List SetupOutcome)
      (ran : List HookRun)
      → applied_of ran ≡ done ++ taken set o hook
      → unset_of ran ≡ []
      → IsSound (on_exit runner o hook done outcomes ran)
  unfolding on_exit run_cleanup_hooks
  on_exit-IsSound none hook done outcomes ran a u = u
  on_exit-IsSound (some code) hook done outcomes ran a u = elim (Bool-cases (code == 0)) [
    | inl e ↦ rw e (a ∙ ap (λ b. done ++ (if b then hook ∷ [] else [])) e, u)
    | inr e ↦
        let only : applied_of ran ≡ done =
          a ∙ ap (λ b. done ++ (if b then hook ∷ [] else [])) e ∙ append-nil done in
        rw e (elim (Bool-cases (code == 10)) [
          | inl f ↦ rw f (only, u)
          | inr f ↦
              let (gone, same) = cleanup_lem (reverse done) ran in
              rw f (gone ∙ ap (λ x. x ++ reverse done) u ∙ ap reverse (sym (same ∙ only)))
        ])
  ]

  module _ (is_file : Text → Bool) where
    try_hook-IsSound :
        (hook : HookSpec) (done : List HookSpec) (outcomes : List SetupOutcome) (ran : List HookRun)
        → applied_of ran ≡ done
        → unset_of ran ≡ []
        → IsSound (try_hook runner is_file hook done outcomes ran)
    unfolding try_hook
    try_hook-IsSound hook done outcomes ran a u =
        elim (Bool-cases (hook_scripts_present is_file hook)) [
          | inl e ↦ rw e (
              on_exit-IsSound (runner ran set hook) hook done outcomes
                (record_run runner set hook ran)
                (applied_of-set hook ran (runner ran set hook) refl
                  ∙ ap (λ x. x ++ taken set (runner ran set hook) hook) a)
                (unset_of-set hook ran ∙ u))
          | inr e ↦ rw e (a, u)
        ]

    setup-IsSettled :
        (hooks done : List HookSpec) (outcomes : List SetupOutcome) (ran : List HookRun)
        → applied_of ran ≡ done
        → unset_of ran ≡ []
        → let r = setup_loop runner is_file hooks done outcomes ran in IsSettled r.1 r.0
    unfolding setup_loop
    setup-IsSettled [] done outcomes ran a u = (a, u)
    setup-IsSettled (hook ∷ hooks) done outcomes ran a u =
        by_verdict (try_hook runner is_file hook done outcomes ran)
          (try_hook-IsSound hook done outcomes ran a u)
          (λ done' outcomes' ran' a' u'. setup-IsSettled hooks done' outcomes' ran' a' u')
      where
        by_verdict :
            (v : Verdict)
            → IsSound v
            → ((done' : List HookSpec) (outcomes' : List SetupOutcome) (ran' : List HookRun)
                → applied_of ran' ≡ done'
                → unset_of ran' ≡ []
                → let r = setup_loop runner is_file hooks done' outcomes' ran' in IsSettled r.1 r.0)
            → let r = elim v as (λ _. List HookRun × SetupResult) [
              | stop ran' result ↦ (ran', result)
              | go_on done' outcomes' ran' ↦ setup_loop runner is_file hooks done' outcomes' ran'
            ] in
              IsSettled r.1 r.0
        by_verdict (stop ran' result) sound later = sound
        by_verdict (go_on done' outcomes' ran') sound later =
            later done' outcomes' ran' sound.0 sound.1

    -- Once the setup of the hooks is over: if it succeeds, the hooks that it reports are those whose set
    -- script has run with exit code 0, and none has been undone; if a set script exits with a code that is
    -- neither 0 nor 10, just the hooks applied before have been undone, the last first; if a set script
    -- could not be run, none has been undone, though some may have been applied.
    pub run_setup_hooks-IsSettled :
        (hooks : List HookSpec) → let r = run_setup_hooks runner is_file hooks in IsSettled r.1 r.0
    unfolding run_setup_hooks
    run_setup_hooks-IsSettled hooks = setup-IsSettled hooks [] [] [] refl refl

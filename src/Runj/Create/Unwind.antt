-- ===== src/Runj/Create/Unwind.antt =====
-- A create command that fails undoes what it has made.
use runj.Prelude.{
  ◌≡◌, refl, inl, inr, Option, none, some, List, [], ◌∷◌, ◌++◌, ℕ, String, Bool, true, false,
  Bool-cases, Option-cases, Result-cases, arith, is_empty, ◌==ℕ◌, ◌!=◌, if◌then◌else◌,
}
use runj.Text.Decimal.{itoa}
use runj.Oci
use runj.Jail.Params.{CreateParams, iovec}
use runj.Jail.Mount.{
  MountError, not_mounted, no_source, not_created, not_unmounted, Fs, mount, unmount,
}
use runj.Runj.Store.{
  State, World, CommandError, Output, output, ◌>>◌, make_jail, remove_jail, mounting,
  start_entrypoint, kill_entrypoint, run_hook, write_pid_file, move_interface, effect, fails_if,
  answered, done, fifo_path, vnet_failed, jail_failed, mount_failed, entrypoint_failed,
}
use runj.Runj.Commands.{hook_run, run_hooks, Answers}
use runj.Runj.Create.{
  Surroundings, on_failure, caught, jail_section, interfaces, jail_params, create_runtime,
}
use runj.Runj.Create.Stages
use runj.Runj.Create.Cleanup.{Along-caught}
use runj.Runj.Store.Laws.{Along-fails_if}
use runj.Runj.Create.Trace.{
  Passing, Trace, Trace-refl, Trace-start, Trace-trans, Passes, Unwinds, Passes-bind, Unwinds-bind,
  Makes, Makes-bind, Unwinds-within, Unwinds-on_failure, jail, mounts, entrypoint, hook, pid_file,
  interface, unwound_mount, stopped_mount, nothing, beside,
}

module _ (fs : Fs) where
  Passes-hook_run : (a : Answers) (k : Oci.Hook) (o : Output) → Passes fs (hook_run a k o)
  unfolding hook_run
  Passes-hook_run a k o w = elim (Bool-cases (is_empty k.args)) [
    | inl panics ↦ rw panics (Trace-refl fs w w refl)
    | inr runs ↦ rw runs (run_hook k.path o ∷ [], refl, beside (hook k.path o) nothing)
  ]

  Passes-run_hooks : (a : Answers) (ks : List Oci.Hook) (o : Output) → Passes fs (run_hooks a ks o)
  unfolding run_hooks
  Passes-run_hooks a [] o w = Trace-refl fs w w refl
  Passes-run_hooks a (k ∷ ks) o w =
      Passes-bind fs (hook_run a k o) (λ _. run_hooks a ks o) (Passes-hook_run a k o)
        (λ _. Passes-run_hooks a ks o) w

module _ (h : Surroundings) where
  Passes-move_each :
      (arg : String) (jid : ℕ) (is : List String) → Passes h.fs (Stages.move_each h arg jid is)
  unfolding Stages.move_each
  Passes-move_each arg jid [] w = Trace-refl h.fs w w refl
  Passes-move_each arg jid (i ∷ is) w =
      let moved : World = record w { effects = w.effects ++ move_interface i arg jid ∷ [] } in
      let here : Trace h.fs w moved =
        (move_interface i arg jid ∷ [], refl, beside (interface i arg jid) nothing) in
      elim (Bool-cases (h.ifconfig i arg)) [
        | inl good ↦ rw good (
            Trace-trans h.fs w moved (Stages.move_each h arg jid is moved).1 here
              (Passes-move_each arg jid is moved))
        | inr bad ↦ rw bad here
      ]

  Passes-move_vnet :
      (spec : Oci.Spec) (jid : ℕ) (reverse : Bool)
      → Passes h.fs (Stages.move_vnet_interfaces h spec jid reverse)
  unfolding Stages.move_vnet_interfaces
  Passes-move_vnet spec jid reverse w =
      let names = interfaces (jail_section spec.freebsd) in
      elim (Bool-cases (is_empty names)) [
        | inl e ↦ rw e (Trace-refl h.fs w w refl)
        | inr e ↦ rw e (
            Passes-bind h.fs (fails_if (jid ==ℕ 0) vnet_failed) _
              (Along-fails_if (Trace h.fs) (Trace-start h.fs) (jid ==ℕ 0) vnet_failed)
              (λ _. Passes-move_each (if reverse then "-vnet" else "vnet") jid names) w)
      ]

  Makes-create_jail : (p : CreateParams) → Makes h.fs (Stages.create_jail h p) (make_jail p)
  unfolding Stages.create_jail
  Makes-create_jail p w = elim (Result-cases (iovec h.parse_addr p)) [
    | inr (e, r) ↦ inr (
      jail_failed,
      rw (Stages.create_jail, r),
      rw (Stages.create_jail, r) (Trace-refl h.fs w w refl),
    )
    | inl (iovecs, r) ↦ elim (Option-cases (h.jail_set iovecs)) [
      | inl refused ↦ inr (
        jail_failed,
        rw (Stages.create_jail, r, refused),
        rw (Stages.create_jail, r, refused) (Trace-refl h.fs w w refl),
      )
      | inr (jid, set) ↦ inl (jid, rw (Stages.create_jail, r, set), rw (Stages.create_jail, r, set))
    ]
  ]

  failing_mount :
      (root : String) (ms : List Oci.Mount) (e : MountError)
      → (mount h.fs root ms).0 ≡ some e
      → Passing h.fs (mounting (mount h.fs root ms).1)
  failing_mount root ms not_mounted f = unwound_mount root ms f
  failing_mount root ms no_source f = stopped_mount root ms no_source (λ p. cc) f
  failing_mount root ms not_created f = stopped_mount root ms not_created (λ p. cc) f
  failing_mount root ms not_unmounted f = stopped_mount root ms not_unmounted (λ p. cc) f

  Makes-mount_all :
      (root : String) (ms : List Oci.Mount)
      → Makes h.fs (Stages.mount_all h root ms) (λ _. mounting (mount h.fs root ms).1)
  unfolding Stages.mount_all
  Makes-mount_all root ms w = elim (Option-cases (mount h.fs root ms).0) [
    | inl fine ↦ inl (tt, rw fine, refl)
    | inr (e, failed) ↦ inr (
      mount_failed,
      rw failed,
      (mounting (mount h.fs root ms).1 ∷ [], refl, beside (failing_mount root ms e failed) nothing),
    )
  ]

  silent_fifo : (w : World) → (Stages.create_exec_fifo h w).1.effects ≡ w.effects
  unfolding Stages.create_exec_fifo
  silent_fifo w = ground arith

  silent_init :
      (init : Bool) (w : World)
      → ((if init then Stages.create_exec_fifo h else done tt) w).1.effects ≡ w.effects
  silent_init true w = silent_fifo w
  silent_init false w = refl

  silent_dial :
      (socket : String) (w : World) → (Stages.dial_console h socket w).1.effects ≡ w.effects
  unfolding Stages.dial_console
  silent_dial socket w = ground arith

  silent_answered :
      {A : Type 0} (o : Option A) (e : CommandError) (w : World)
      → (answered o e w).1.effects ≡ w.effects
  silent_answered none e w = refl
  silent_answered (some a) e w = refl

  Makes-setup_entrypoint :
      (id : String) (init : Bool) (argv env : List String) (socket : String)
      → Makes h.fs (Stages.setup_entrypoint h id init argv env socket) (λ pid.
        start_entrypoint
          (id ∷ (if init then fifo_path id else "-") ∷ argv)
          (env ++ Stages.console_env h socket)
          pid)
  unfolding Stages.setup_entrypoint
  Makes-setup_entrypoint id init argv env socket =
      Makes-bind h.fs (if init then Stages.create_exec_fifo h else done tt) _ _ (silent_init init)
        (λ _. Makes-bind h.fs (Stages.dial_console h socket) _ _ (silent_dial socket) (λ _.
          Makes-bind h.fs (answered h.start_entrypoint entrypoint_failed) _ _
            (silent_answered h.start_entrypoint entrypoint_failed)
            (λ pid w. inl (pid, refl, refl))))

  Passes-write_pid : (path : String) (pid : ℕ) → Passes h.fs (Stages.write_pid h path pid)
  unfolding Stages.write_pid
  Passes-write_pid path pid w = elim (Bool-cases (path != "")) [
    | inl named ↦
        rw named
          (write_pid_file path (itoa pid) ∷ [], refl, beside (pid_file path (itoa pid)) nothing)
    | inr unnamed ↦ rw unnamed (Trace-refl h.fs w w refl)
  ]

  Passes-hook_stage : (spec : Oci.Spec) (s : State) → Passes h.fs (Stages.hook_stage h spec s)
  unfolding Stages.hook_stage
  Passes-hook_stage spec s =
      let ks = create_runtime spec.hooks in
      let out = record (output h.answers.version s) { annotations = spec.annotations } in
      Passes-bind h.fs (caught (run_hooks h.answers ks out)) (λ panics. done (s, panics))
        (Along-caught (Trace h.fs) (run_hooks h.answers ks out)
          (Passes-run_hooks h.fs h.answers ks out))
        (λ panics w. Trace-refl h.fs w w refl)

  module _ (id socket pid_file : String) where
    Unwinds-entrypoint_stage :
        (spec : Oci.Spec) (process : Oci.Process) (s : State)
        → Unwinds h.fs (Stages.entrypoint_stage h id socket pid_file spec process s)
    unfolding Stages.entrypoint_stage
    Unwinds-entrypoint_stage spec process s =
        Unwinds-within h.fs (Stages.setup_entrypoint h id true process.args process.env socket)
          (λ pid.
            start_entrypoint (id ∷ fifo_path id ∷ process.args)
              (process.env ++ Stages.console_env h socket) pid)
          (λ pid. effect (kill_entrypoint pid)) kill_entrypoint
          (λ pid.
            Stages.write_pid h pid_file pid >> Stages.hook_stage h spec (record s { pid = pid }))
          (Makes-setup_entrypoint id true process.args process.env socket) (λ pid w. refl)
          (λ pid. entrypoint _ _ pid)
          (λ pid w e f.
            Passes-bind h.fs (Stages.write_pid h pid_file pid)
              (λ _. Stages.hook_stage h spec (record s { pid = pid }))
              (Passes-write_pid pid_file pid) (λ _. Passes-hook_stage spec (record s { pid = pid }))
              w)

    Unwinds-vnet_stage :
        (spec : Oci.Spec) (process : Oci.Process) (jid : ℕ) (s : State)
        → Unwinds h.fs (Stages.vnet_stage h id socket pid_file spec process jid s)
    unfolding Stages.vnet_stage
    Unwinds-vnet_stage spec process jid s =
        let stage = Stages.entrypoint_stage h id socket pid_file spec process s in
        let out = Stages.move_vnet_interfaces h spec jid true in
        Unwinds-bind h.fs (Stages.move_vnet_interfaces h spec jid false) (λ _. on_failure out stage)
          (Passes-move_vnet spec jid false)
          (λ _.
            Unwinds-on_failure h.fs out stage (Passes-move_vnet spec jid true)
              (Unwinds-entrypoint_stage spec process s))

    Unwinds-mount_stage :
        (root : String) (spec : Oci.Spec) (process : Oci.Process) (jid : ℕ) (s : State)
        → Unwinds h.fs (Stages.mount_stage h id socket pid_file root spec process jid s)
    unfolding Stages.mount_stage Stages.unmount_all
    Unwinds-mount_stage root spec process jid s =
        Unwinds-within h.fs (Stages.mount_all h root spec.mounts)
          (λ _. mounting (mount h.fs root spec.mounts).1)
          (λ _. Stages.unmount_all h root spec.mounts)
          (λ _. mounting (unmount h.fs root spec.mounts).1)
          (λ _. Stages.vnet_stage h id socket pid_file spec process jid s)
          (Makes-mount_all root spec.mounts) (λ _ w. refl) (λ _. mounts root spec.mounts)
          (λ _. Unwinds-vnet_stage spec process jid s)

    pub Unwinds-jail_stage :
        (root : String) (spec : Oci.Spec) (process : Oci.Process) (s : State)
        → Unwinds h.fs (Stages.jail_stage h id socket pid_file root spec process s)
    unfolding Stages.jail_stage
    Unwinds-jail_stage root spec process s =
        let params = jail_params id root spec in
        Unwinds-within h.fs (Stages.create_jail h params) (make_jail params)
          (λ _. effect remove_jail) (λ _. remove_jail)
          (λ jid. Stages.mount_stage h id socket pid_file root spec process jid s)
          (Makes-create_jail params) (λ _ w. refl) (λ jid. jail params jid)
          (λ jid. Unwinds-mount_stage root spec process jid s)

-- ===== src/Runj/Create/Prepared.antt =====
-- The stages of a create command that succeeds.
use runj.Prelude.{
  false, Option-cases, ◌≡◌, refl, sym, ap, inl, inr, some, List, ok, Result-ok, ℕ, String, Bool,
  true, Result-cases, arith, ◌∙◌,
}
use runj.Oci
use runj.Runj.Store.{
  remove_jail, output, done, State, World, Command, ◌>>=◌, ◌>>◌, effect, kill_entrypoint,
}
use runj.Runj.Commands.{run_hooks, config_of, load_config}
use runj.Runj.Create.{
  Surroundings, on_failure, caught, check_console, create_runtime, root_path, jail_params,
}
use runj.Runj.Create.Stages
use runj.Runj.Create.Kept.{Keeps-hook_stage, Keeps-write_pid}

module _ {ℓ κ} {A : Type ℓ} {B : Type κ} where
  -- The two parts of a command that succeeds.
  pub bind-succeeds :
      {b : B} (m : Command A) (f : A → Command B) (w : World)
      → ((m >>= f) w).0 ≡ ok b
      → (a : A) × ((m w).0 ≡ ok a) × ((f a (m w).1).0 ≡ ok b) × (((m >>= f) w).1 ≡ (f a (m w).1).1)
  bind-succeeds m f w h = elim (Result-cases (m w).0) [
    | inl (a, r) ↦ (a, r, rw r at h, rw r refl)
    | inr (e, r) ↦ absurd (cc (rw r at h))
  ]

on_failure-succeeds {ℓ} :
    {A : Type ℓ} {b : A} (c : Command (Unit {0})) (body : Command A) (w : World)
    → (on_failure c body w).0 ≡ ok b
    → ((body w).0 ≡ ok b) × ((on_failure c body w).1 ≡ (body w).1)
unfolding on_failure
on_failure-succeeds c body w h = elim (Result-cases (body w).0) [
  | inl (a, r) ↦ (r ∙ rw (on_failure, r) at h, rw r refl)
  | inr (e, r) ↦ absurd (cc (rw (on_failure, r) at h))
]

-- A stage that succeeds has made its thing, and the later stages have succeeded.
stage-succeeds {ℓ κ} :
    {A : Type ℓ} {B : Type κ} {b : B} (m : Command A) (c : A → Command (Unit {0}))
    (body : A → Command B) (w : World)
    → ((m >>= λ a. on_failure (c a) (body a)) w).0 ≡ ok b
    → (a : A) × ((m w).0 ≡ ok a)
      × ((body a (m w).1).0 ≡ ok b)
      × (((m >>= λ a. on_failure (c a) (body a)) w).1 ≡ (body a (m w).1).1)
stage-succeeds m c body w r =
    let (a, made, rest, after) = bind-succeeds m (λ a. on_failure (c a) (body a)) w r in
    let (fine, same) = on_failure-succeeds (c a) (body a) (m w).1 rest in
    (a, made, fine, after ∙ same)

module _ (h : Surroundings) where
  -- The entrypoint runs and waits at the fifo, and its pid is that of the container.
  abbrev pub Prepared : State → State → World → Type 0
  Prepared s t v =
      (pid : ℕ) × (h.start_entrypoint ≡ some pid) × (t ≡ record s { pid = pid }) × (v.fifo ≡ true)

  setup_entrypoint_succeeds :
      (id : String) (argv env : List String) (socket : String) (w : World) (pid : ℕ)
      → (Stages.setup_entrypoint h id true argv env socket w).0 ≡ ok pid
      → (h.start_entrypoint ≡ some pid)
        × ((Stages.setup_entrypoint h id true argv env socket w).1.fifo ≡ true)
  unfolding Stages.setup_entrypoint Stages.create_exec_fifo Stages.dial_console
  setup_entrypoint_succeeds id argv env socket w pid r = (ground arith, ground arith)

  hook_stage_succeeds :
      (spec : Oci.Spec) (s t : State) (b : Bool) (w : World)
      → (Stages.hook_stage h spec s w).0 ≡ ok (t, b)
      → t ≡ s
  unfolding Stages.hook_stage
  hook_stage_succeeds spec s t b w r =
      let out = record (output h.answers.version s) { annotations = spec.annotations } in
      let hooks = caught (run_hooks h.answers (create_runtime spec.hooks) out) in
      let (panics, p, q, v) = bind-succeeds hooks (λ panics. done (s, panics)) w r in
      sym (ap (λ p. p.0) (Result-ok q))

  module _ (id socket pid_file : String) where
    entrypoint_stage_succeeds :
        (spec : Oci.Spec) (process : Oci.Process) (s t : State) (b : Bool) (w : World)
        → (Stages.entrypoint_stage h id socket pid_file spec process s w).0 ≡ ok (t, b)
        → Prepared s t (Stages.entrypoint_stage h id socket pid_file spec process s w).1
    unfolding Stages.entrypoint_stage
    entrypoint_stage_succeeds spec process s t b w r =
        let setup = Stages.setup_entrypoint h id true process.args process.env socket in
        let body : ℕ → Command (State × Bool) = λ pid.
          Stages.write_pid h pid_file pid >> Stages.hook_stage h spec (record s { pid = pid }) in
        let (pid, made, fine, after) =
          stage-succeeds setup (λ pid. effect (kill_entrypoint pid)) body w r in
        let u : World = (setup w).1 in
        let (started, fifo) =
          setup_entrypoint_succeeds id process.args process.env socket w pid made in
        let (_, wrote, hooked, at_end) =
          bind-succeeds (Stages.write_pid h pid_file pid)
            (λ _. Stages.hook_stage h spec (record s { pid = pid })) u fine in
        let v : World = (Stages.write_pid h pid_file pid u).1 in
        let (a1, a2, a3, a4, kept) = Keeps-write_pid h pid_file pid u in
        let (b1, b2, b3, b4, held) = Keeps-hook_stage h spec (record s { pid = pid }) v in
        (
          pid,
          started,
          hook_stage_succeeds spec (record s { pid = pid }) t b v hooked,
          ap (λ z. z.fifo) (after ∙ at_end) ∙ held (kept fifo),
        )

    jail_stage_succeeds :
        (root : String) (spec : Oci.Spec) (process : Oci.Process) (s t : State) (b : Bool)
        (w : World)
        → (Stages.jail_stage h id socket pid_file root spec process s w).0 ≡ ok (t, b)
        → Prepared s t (Stages.jail_stage h id socket pid_file root spec process s w).1
    unfolding Stages.jail_stage Stages.mount_stage Stages.vnet_stage
    jail_stage_succeeds root spec process s t b w r =
        let make = Stages.create_jail h (jail_params id root spec) in
        let mount_all = Stages.mount_all h root spec.mounts in
        let entry = Stages.entrypoint_stage h id socket pid_file spec process s in
        let (jid, made, r1, e1) =
          stage-succeeds make (λ _. effect remove_jail)
            (λ jid. Stages.mount_stage h id socket pid_file root spec process jid s) w r in
        let w1 : World = (make w).1 in
        let (_, mounted, r2, e2) =
          stage-succeeds mount_all (λ _. Stages.unmount_all h root spec.mounts)
            (λ _. Stages.vnet_stage h id socket pid_file spec process jid s) w1 r1 in
        let w2 : World = (mount_all w1).1 in
        let (_, moved, r3, e3) =
          stage-succeeds (Stages.move_vnet_interfaces h spec jid false)
            (λ _. Stages.move_vnet_interfaces h spec jid true) (λ _. entry) w2 r2 in
        let w3 : World = (Stages.move_vnet_interfaces h spec jid false w2).1 in
        let (pid, started, same, fifo) = entrypoint_stage_succeeds spec process s t b w3 r3 in
        (pid, started, same, ap (λ z. z.fifo) (e1 ∙ e2 ∙ e3) ∙ fifo)

    pub configured_succeeds :
        (bundle : String) (s t : State) (b : Bool) (w : World)
        → (Stages.configured h id socket pid_file bundle s w).0 ≡ ok (t, b)
        → (spec : Oci.Spec) × (config_of h.answers w.config w.extension ≡ some spec)
          × Prepared
              (record s { oci_version = spec.version })
              t
              (Stages.configured h id socket pid_file bundle s w).1
    unfolding Stages.configured load_config
    configured_succeeds bundle s t b w r =
        elim (Option-cases (config_of h.answers w.config w.extension)) [
          | inl unread ↦ absurd (cc (rw unread at r))
          | inr (spec, read) ↦ elim (Option-cases spec.process) [
            | inl without ↦ absurd (cc (rw (read, without) at r))
            | inr (process, with_process) ↦
                let root = root_path bundle spec.root in
                let rooted : Oci.Spec = record spec { root = some (record { path = root }) } in
                let s1 : State = record s { oci_version = spec.version } in
                let (_, valid, r1, e1) =
                  bind-succeeds (check_console h process.terminal socket)
                    (λ _. Stages.jail_stage h id socket pid_file root rooted process s1) w
                    (rw (read, with_process) at r) in
                let v : World = (check_console h process.terminal socket w).1 in
                let (pid, started, same, fifo) =
                  jail_stage_succeeds root rooted process s1 t b v r1 in
                let prepared : Prepared s1 t (Stages.configured h id socket pid_file bundle s w).1 =
                  (pid, started, same, rw (read, with_process) (ap (λ z. z.fifo) e1 ∙ fifo)) in
                (spec, read, prepared)
          ]
        ]

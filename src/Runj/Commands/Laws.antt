-- ===== src/Runj/Commands/Laws.antt =====
-- What the commands do, on every branch.
use runj.Status.{status_stopped, status_running}
use runj.Text.Decimal.{ℤ}
use runj.Runj.Store.{Output, output, Effect, save, load, State, World}
use runj.Runj.Commands.{
  clean_up_entrypoint, config_of, await_fifo, load_config, status_stopped, Output, status_running,
  kill_process, output, kill_all, refresh, save, missing_process, load, kill, delete, ℤ, State,
  state, start, Answers,
}
use runj.Oci
use runj.Jail.Ps.{is_running}
use runj.Prelude.{
  sym, ◌∙◌, ap, Result-ok, String, none, not, ◌&&◌, arith, refl, eq_iff, inl, inr, Bool-cases,
  Option-cases, [], ◌∷◌, ◌++◌, ◌==ℕ◌, ◌⊎◌, true, ◌↔◌, ◌≢◌, Option, ◌==◌, ok, if◌then◌else◌, false,
  some, ◌≡◌, Bool, ℕ,
}

differs : (x : String) → (x == status_running) ≡ false → x ≢ status_running
differs x n e = ground (arith, n, (eq_iff x status_running).1 e)

module _ (a : Answers) (w : World) where
  abbrev pub Startable : State → Oci.Spec → Type 0
  Startable s config =
      (missing_process config.process ≡ false)
      × ((s.status == status_running) ≡ true → is_running a.ps s.pid ≡ some false)
      × (w.fifo ≡ true)
      × (a.open_fifo ≡ true)
      × (a.fifo_data ≡ true)
      × (a.remove_fifo ≡ true)
      × (a.disk.create_temp ≡ true)
      × (a.disk.write ≡ true)

  pub start_lem :
      (s : State) (config : Oci.Spec)
      → w.state ≡ some s
      → config_of a w.config w.extension ≡ some config
      → (((start a w).0 ≡ ok tt) ↔ Startable s config)
        × ((start a w).0 ≡ ok tt
            → (start a w).1.state
              ≡ (if a.disk.rename then some (record s { status = status_running }) else some s))
        × ((start a w).0 ≢ ok tt → (start a w).1.state ≡ w.state)
  unfolding start load save load_config await_fifo
  start_lem s config l c = (
    (
      λ h. (
        ground arith,
        λ r. ground arith,
        ground arith,
        ground arith,
        ground arith,
        ground arith,
        ground arith,
        ground arith,
      ),
      λ h. ground (arith, h.1),
    ),
    λ h. ground arith,
    λ h. ground arith,
  )

  abbrev pub sent : ℤ → Bool → ℕ → State → Effect
  sent n all pid s = if all then kill_all n else kill_process (if pid ==ℕ 0 then s.pid else pid) n

  -- The kill command, for a container whose state is there, either fails and sends no signal, or
  -- the container is in the state `running` and found to run, and exactly the signal that was
  -- asked for is sent: to all processes, to the given one, or to that of the container; never
  -- where both all and a process are given.
  pub kill_command_lem :
      (s : State) (signal : Option ℤ) (all : Bool) (pid : ℕ)
      → w.state ≡ some s
      → ((kill a signal all pid w).0 ≢ ok tt × ((kill a signal all pid w).1.effects ≡ w.effects))
        ⊎ ((s.status ≡ status_running)
            × (is_running a.ps s.pid ≡ some true)
            × ((n : ℤ) × (signal ≡ some n)
                × ((kill a signal all pid w).1.effects ≡ w.effects ++ sent n all pid s ∷ []))
            × ((all ≡ false) ⊎ (pid ≡ 0)))
  unfolding kill load save refresh
  kill_command_lem s none all pid l = inl (ground arith, ground arith)
  kill_command_lem s (some n) all pid l = elim (Bool-cases (all && not (pid ==ℕ 0))) [
    | inl both ↦ inl (ground arith, ground arith)
    | inr one ↦ elim (Bool-cases (s.status == status_running)) [
      | inr other ↦ inl (ground arith, ground arith)
      | inl running ↦ elim (Option-cases (is_running a.ps s.pid)) [
        | inl unknown ↦ inl (ground arith, ground arith)
        | inr (false, gone) ↦ inl (ground arith, ground arith)
        | inr (true, there) ↦ inr (
          (eq_iff s.status status_running).0 running,
          there,
          (n, refl, ground arith),
          ground arith,
        )
      ]
    ]
  ]

  -- The state command, for a container whose state is there, reports `running` only where IsRunning
  -- answers yes, which it does for the stored pid or for any other process in the jail; the pid that
  -- is reported is the stored one, whichever of the two it was.
  pub state_command_lem :
      (s : State) (o : Output)
      → w.state ≡ some s
      → (state a w).0 ≡ ok o
      → o.status ≡ status_running
      → (is_running a.ps s.pid ≡ some true) × (o.pid ≡ s.pid)
  unfolding state load save refresh output
  state_command_lem s o l e r = elim (Bool-cases (s.status == status_running)) [
    | inr other ↦
        let same : output a.version s ≡ o = Result-ok (rw (l, other) at e) in
        absurd (differs s.status other (ap (λ p. p.status) same ∙ r))
    | inl running ↦ elim (Option-cases (is_running a.ps s.pid)) [
      | inl unknown ↦ absurd (cc (rw (l, running, unknown) at e))
      | inr (true, there) ↦
          let same : output a.version s ≡ o = Result-ok (rw (l, running, there) at e) in
          (there, ap (λ p. p.pid) (sym same))
      | inr (false, gone) ↦ elim (Bool-cases a.disk.create_temp) [
        | inr full ↦ absurd (cc (rw (l, running, gone, full) at e))
        | inl made ↦ elim (Bool-cases a.disk.write) [
          | inr full ↦ absurd (cc (rw (l, running, gone, made, full) at e))
          | inl written ↦
              let stopped = record s { status = status_stopped; pid = 0 } in
              let same : output a.version stopped ≡ o =
                Result-ok (rw (l, running, gone, made, written) at e) in
              absurd (differs status_stopped refl (ap (λ p. p.status) same ∙ r))
        ]
      ]
    ]
  ]

  -- The delete command, for a container whose state is there, changes state.json only where the
  -- jail is found not to run, and where cleaning up the entrypoint, removing the jail and
  -- unmounting all succeed.
  pub delete_command_lem :
      (s : State)
      → w.state ≡ some s
      → (delete a w).1.state ≢ w.state
      → (is_running a.ps 0 ≡ some false)
        × (a.cleanup_entrypoint ≡ true)
        × (a.remove_jail ≡ true)
        × (a.unmount ≡ true)
  unfolding delete load load_config clean_up_entrypoint
  delete_command_lem s l n = (ground arith, ground arith, ground arith, ground arith)

-- ===== src/Runj/Exec/Laws.antt =====
-- When extension exec runs its process.
use runj.Prelude.{
  true≢false, ap, subst, Result, ◌≡◌, ◌≢◌, ◌⊎◌, inl, inr, refl, sym, true, false, String, Bool,
  some, List, [], ◌∷◌, ◌++◌, not, ok, err, ◌==◌, ◌!=◌, Bool-cases, Option-cases, eq_iff,
}
use runj.Status.{status_running}
use runj.Oci
use runj.Jail.Ps.{is_running}
use runj.FilePath.{◌+++◌}
use runj.Text.Decimal.{itoa}
use runj.Runj.Store.{
  proceed, no_state, answered, fails_if, not_running, Command, ◌>>=◌, ◌>>◌, CommandError,
  no_process, no_config, panicked, bad_console, entrypoint_failed, State, World, load,
  exec_entrypoint,
}
use runj.Runj.Commands.{load_config, config_of}
use runj.Runj.Create.{valid_console}
use runj.Runj.Exec.{ExecAnswers, exec_in, exec_process, exec_entrypoint_as, exec_console}

load_continues {ℓ} :
    {A : Type ℓ} (f : State → Command A) (w : World) (s : State)
    → w.state ≡ some s
    → (load >>= f) w ≡ f s w
unfolding load
load_continues f w s l = ap (λ o. proceed (answered o no_state w).0 f (answered o no_state w).1) l

module _ (a : ExecAnswers) where
  -- The process of the flag, or the bundle's with other arguments.
  abbrev pub Asked : String → List String → World → Oci.Process → Type 0
  Asked json args w p =
      (((json != "") ≡ true) × (a.read_process json ≡ some p))
      ⊎ (((json != "") ≡ false)
          × ((config : Oci.Spec) × (q : Oci.Process) × (config_of a.answers w.config w.extension
                ≡ some config)
              × (config.process ≡ some q)
              × (p ≡ record q { args = args })))

  process-Asked :
      (json : String) (args : List String) (w : World)
      → ((p : Oci.Process) × (exec_process a json args w ≡ (ok p, w)) × Asked json args w p)
        ⊎ ((e : CommandError) × (exec_process a json args w ≡ (err e, w)))
  unfolding exec_process load_config
  process-Asked json args w = elim (Bool-cases (json != "")) [
    | inl named ↦ elim (Option-cases (a.read_process json)) [
      | inl bad ↦ inr (no_process, rw (named, bad) refl)
      | inr (p, read) ↦ inl (p, rw (named, read) refl, inl (named, read))
    ]
    | inr unnamed ↦ elim (Option-cases (config_of a.answers w.config w.extension)) [
      | inl bad ↦ inr (no_config, rw (unnamed, bad) refl)
      | inr (config, read) ↦ elim (Option-cases config.process) [
        | inl without ↦ inr (panicked, rw (unnamed, read, without) refl)
        | inr (q, there) ↦ inl (
          record q { args = args },
          rw (unnamed, read, there) refl,
          inr (unnamed, (config, q, read, there, refl)),
        )
      ]
    ]
  ]

  -- The console is as the process wants it.
  abbrev pub Console : Bool → String → Type 0
  Console terminal socket =
      (terminal ≡ true → a.stat socket ≡ some true) × (terminal ≡ false → (socket != "") ≡ false)

  Console-valid :
      (terminal : Bool) (socket : String) (w : World)
      → ((valid_console a.stat terminal socket w ≡ (ok tt, w)) × Console terminal socket)
        ⊎ ((e : CommandError) × (valid_console a.stat terminal socket w ≡ (err e, w)))
  unfolding valid_console
  Console-valid false socket w = elim (Bool-cases (socket != "")) [
    | inl given ↦ inr (bad_console, rw given refl)
    | inr absent ↦ inl (rw absent refl, (λ n. absurd (true≢false (sym n)), λ n. absent))
  ]
  Console-valid true socket w = elim (Bool-cases (socket == "")) [
    | inl missing ↦ inr (bad_console, rw missing refl)
    | inr given ↦ elim (Option-cases (a.stat socket)) [
      | inl unread ↦ inr (bad_console, rw (given, unread) refl)
      | inr (true, is) ↦ inl (rw (given, is) refl, (λ n. is, λ n. absurd (true≢false n)))
      | inr (false, other) ↦ inr (bad_console, rw (given, other) refl)
    ]
  ]

  console_env_of :
      (env : List String) (socket : String) (w : World)
      → ((env' : List String) × (exec_console a env socket w ≡ (ok env', w)))
        ⊎ ((e : CommandError) × (exec_console a env socket w ≡ (err e, w)))
  unfolding exec_console
  console_env_of env socket w = elim (Bool-cases (socket != "")) [
    | inr absent ↦ inl (env, rw absent refl)
    | inl given ↦ elim (Bool-cases a.dial) [
      | inr refused ↦ inr (entrypoint_failed, rw (given, refused) refl)
      | inl dialled ↦ elim (Bool-cases a.unix_conn) [
        | inr other ↦ inr (entrypoint_failed, rw (given, dialled, other) refl)
        | inl unix ↦ elim (Bool-cases a.conn_file) [
          | inr closed ↦ inr (entrypoint_failed, rw (given, dialled, unix, closed) refl)
          | inl file ↦ elim (Option-cases a.dup) [
            | inl full ↦ inr (entrypoint_failed, rw (given, dialled, unix, file, full) refl)
            | inr (fd, copied) ↦ inl (
              env ++ ("__RUNJ_CONSOLE_SOCKET=" +++ itoa fd) ∷ [],
              rw (given, dialled, unix, file, copied) refl,
            )
          ]
        ]
      ]
    ]
  ]

  -- What exec does outside, if anything.
  abbrev pub Ran : String → String → String → List String → World → World → Type 0
  Ran json socket id args w v =
      (s : State) × (p : Oci.Process) × (env : List String) × (w.state ≡ some s)
      × (s.status ≡ status_running)
      × (is_running a.answers.ps s.pid ≡ some true)
      × Asked json args w p
      × Console p.terminal socket
      × (v.effects ≡ w.effects ++ exec_entrypoint ("runj-entrypoint" ∷ id ∷ "-" ∷ p.args) env ∷ [])

  entrypoint_run :
      (id : String) (argv env : List String) (socket : String) (w : World)
      → let v = exec_entrypoint_as a id argv env socket w in
        ((v.0 ≢ ok tt) × (v.1.effects ≡ w.effects))
        ⊎ ((env' : List String) × (v.1.effects
              ≡ w.effects ++ exec_entrypoint ("runj-entrypoint" ∷ id ∷ "-" ∷ argv) env' ∷ []))
  unfolding exec_entrypoint_as
  entrypoint_run id argv env socket w = elim (console_env_of env socket w) [
    | inr (e, bad) ↦ inl (λ n. cc (rw bad at n), rw bad refl)
    | inl (env', good) ↦ elim (Bool-cases a.look_path) [
      | inr missing ↦ inl (λ n. cc (rw (good, missing) at n), rw (good, missing) refl)
      | inl found ↦ inr (env', rw (good, found) refl)
    ]
  ]

  -- What comes after the loading of the state
  rest : String → String → String → List String → State → Command (Unit {0})
  rest json socket id args s = do
    fails_if (s.status != status_running) not_running
    running ← answered (is_running a.answers.ps s.pid) not_running
    fails_if (not running) not_running
    process ← exec_process a json args
    valid_console a.stat process.terminal socket
    exec_entrypoint_as a id process.args process.env socket

  Outcome :
      String
      → String
      → String
      → List String
      → World
      → Result CommandError (Unit {0}) × World
      → Type 0
  Outcome json socket id args w v =
      ((v.0 ≢ ok tt) × (v.1.effects ≡ w.effects)) ⊎ Ran json socket id args w v.1

  rest-Outcome :
      (json socket id : String) (args : List String) (w : World) (s : State)
      → w.state ≡ some s
      → Outcome json socket id args w (rest json socket id args s w)
  unfolding Outcome rest
  rest-Outcome json socket id args w s l = elim (Bool-cases (s.status == status_running)) [
    | inr other ↦ inl (λ n. cc (rw other at n), rw other refl)
    | inl running ↦ elim (Option-cases (is_running a.answers.ps s.pid)) [
      | inl unknown ↦ inl (λ n. cc (rw (running, unknown) at n), rw (running, unknown) refl)
      | inr (false, gone) ↦ inl (λ n. cc (rw (running, gone) at n), rw (running, gone) refl)
      | inr (true, there) ↦ elim (process-Asked json args w) [
        | inr (e, bad) ↦
            inl (λ n. cc (rw (running, there, bad) at n), rw (running, there, bad) refl)
        | inl (p, read, asked) ↦ elim (Console-valid p.terminal socket w) [
          | inr (e, bad) ↦
              inl
                (λ n. cc (rw (running, there, read, bad) at n), rw (running, there, read, bad) refl)
          | inl (good, console) ↦ elim (entrypoint_run id p.args p.env socket w) [
            | inl (fails, same) ↦
                inl (rw (running, there, read, good) fails, rw (running, there, read, good) same)
            | inr (env, ran) ↦
                let was = (eq_iff s.status status_running).0 running in
                inr (s, p, env, l, was, there, asked, console, rw (running, there, read, good) ran)
          ]
        ]
      ]
    ]
  ]

  -- Extension exec either fails and runs nothing, or hands over to runj-entrypoint exactly once,
  -- which gets the id, no fifo, and the arguments of the process that is asked for: that of the
  -- flag, or the bundle's with the arguments given. It does so only for a container in the state
  -- `running` that is found to run, with a console socket exactly where the process has a terminal.
  pub exec_lem :
      (json socket id : String) (args : List String) (w : World)
      → let v = exec_in a json socket id args w in
        ((v.0 ≢ ok tt) × (v.1.effects ≡ w.effects)) ⊎ Ran json socket id args w v.1
  unfolding exec_in load Outcome rest
  exec_lem json socket id args w = elim (Option-cases w.state) [
    | inl missing ↦ inl (λ n. cc (rw missing at n), rw missing refl)
    | inr (s, l) ↦
        let same : exec_in a json socket id args w ≡ rest json socket id args s w =
          load_continues (rest json socket id args) w s l in
        subst (λ v. Outcome json socket id args w v) (sym same)
          (rest-Outcome json socket id args w s l)
  ]

-- ===== src/Runj/Exec.antt =====
-- cmd/runj/ext_exec.go: the extension that runs another process in a jail, with ExecEntrypoint of
-- jail/entrypoint.go.
pub mod Laws
use runj.Prelude.{
  ◌≡◌, ◌≢◌, ◌⊎◌, inl, inr, refl, true, false, ℕ, String, Bool, Option, none, some, List, [], ◌∷◌,
  ◌++◌, not, ok, err, ◌==◌, ◌!=◌, if◌then◌else◌, arith, Bool-cases, Option-cases, Result-cases,
}
use runj.Text.Decimal.{itoa}
use runj.Status.{status_running}
use runj.Oci
use runj.Jail.Ps.{is_running}
use runj.FilePath.{◌+++◌}
use runj.Runj.Store.{
  State, World, Command, done, answered, fails_if, effect, load, ◌>>=◌, ◌>>◌, not_running,
  no_process, panicked, entrypoint_failed, bad_console, exec_entrypoint,
}
use runj.Runj.Commands.{Answers, load_config, config_of}
use runj.Runj.Create.{valid_console}

pub record ExecAnswers : Type 0 where
  pub answers : Answers
  -- reading and parsing a process.json
  pub read_process : String → Option Oci.Process
  pub stat : String → Option Bool
  -- net.Dial, its cast, the file of the connection, and the copy of its descriptor
  pub dial : Bool
  pub unix_conn : Bool
  pub conn_file : Bool
  pub dup : Option ℕ
  -- exec.LookPath of runj-entrypoint, and execve(2), which does not return where it succeeds
  pub look_path : Bool
  pub exec : Bool

-- PreRunE, of the flag `process` and the arguments, the first of which is the id
unfoldable pub exec_args : String → List String → Bool
exec_args json [] = false
exec_args json (id ∷ []) = json != ""
exec_args json (id ∷ a ∷ rest) = json == ""

module _ (a : ExecAnswers) where
  -- The console's part of ExecEntrypoint: the environment with the descriptor of its socket
  unfoldable pub exec_console : List String → String → Command (List String)
  exec_console env socket =
      if socket != ""
      then (do
        fails_if (not a.dial) entrypoint_failed
        fails_if (not a.unix_conn) entrypoint_failed
        fails_if (not a.conn_file) entrypoint_failed
        fd ← answered a.dup entrypoint_failed
        done (env ++ ("__RUNJ_CONSOLE_SOCKET=" +++ itoa fd) ∷ []))
      else done env

  -- ExecEntrypoint
  unfoldable pub exec_entrypoint_as :
      String → List String → List String → String → Command (Unit {0})
  unfolding exec_console
  exec_entrypoint_as id argv env socket = do
    env' ← exec_console env socket
    fails_if (not a.look_path) entrypoint_failed
    effect (exec_entrypoint ("runj-entrypoint" ∷ id ∷ "-" ∷ argv) env')
    fails_if (not a.exec) entrypoint_failed

  -- The process to run: that of the file, or the bundle's with these arguments
  unfoldable pub exec_process : String → List String → Command Oci.Process
  unfolding load_config
  exec_process json args = if json != "" then answered (a.read_process json) no_process else (do
    config ← load_config a.answers
    process ← answered config.process panicked
    done (record process { args = args }))

  -- RunE, of the flags and of the id and the arguments after it
  unfoldable pub exec_in : String → String → String → List String → Command (Unit {0})
  unfolding load exec_process valid_console exec_entrypoint_as
  exec_in json socket id args = do
    s ← load
    fails_if (s.status != status_running) not_running
    running ← answered (is_running a.answers.ps s.pid) not_running
    fails_if (not running) not_running
    process ← exec_process json args
    valid_console a.stat process.terminal socket
    exec_entrypoint_as id process.args process.env socket

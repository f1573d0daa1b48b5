-- ===== src/Containerd/Command.antt =====
-- containerd/exec.go: the runj commands that the shim runs, and the answers that it takes from them.
use runj.Prelude.{
  ℕ, String, Bool, not, Option, none, some, List, [], ◌∷◌, ◌++◌, ◌==ℕ◌, if◌then◌else◌, Result, ok,
  err,
}
use runj.Text.Decimal.{itoa}
use runj.Oci
use runj.Containerd.Process.{Exit}
use runj.Containerd.Shim.{
  Error, failed, CMount, Task, run_command, pure, lift, refuse_if, ◌>>=◌, ◌>>◌, does,
}

-- ociState, what `runj state` prints
pub record OciState : Type 0 where
  pub oci_version : String
  pub id : String
  pub status : String
  pub pid : ℕ
  pub bundle : String

-- How one run of a command goes.
pub record Reply : Type 0 where
  -- the command starts, with this pid
  pub started : Bool
  pub pid : ℕ
  -- reaper.Wait returns without an error, with this exit status
  pub waited : Bool
  pub status : ℕ
  -- the exits that the reaper hands to the command's channel before it closes it
  pub exits : List Exit
  -- json.Unmarshal of the output
  pub state : Option OciState

pub data MkdirResult : Type 0 where
  made exists refused : MkdirResult

-- The shim's surroundings: what each call of another program, of the kernel or of a package
-- outside the repository answers.
pub record Host : Type 0 where
  pub run : List String → Reply
  -- runc.NewTempConsoleSocket and socket.ReceiveMaster
  pub console_socket : Option String
  pub receive_master : Option ℕ
  -- os.Stat of a stream's path succeeds; fifo.OpenFifo
  pub stat : String → Bool
  pub open_fifo : String → Option ℕ
  pub make_dir : String → MkdirResult
  pub mount : CMount → Bool
  -- reading and parsing config.json, and writing it
  pub read_config : String → Option Oci.Spec
  pub write_config : String → Bool
  pub copy_file : String → String → Bool
  pub create_temp : Option String
  pub encode_process : Bool
  pub resize : Bool
  pub now : ℕ
  pub shim_pid : ℕ

-- WaitNoFlush: the status of the first exit with the command's pid; `none` if the channel is
-- closed before.
unfoldable pub wait_no_flush : ℕ → List Exit → Option ℕ
wait_no_flush pid [] = none
wait_no_flush pid (e ∷ exits) =
    let rest = wait_no_flush pid exits in if e.pid ==ℕ pid then some e.status else rest

abbrev pub console_args : Option String → List String
console_args none = []
console_args (some path) = "--console-socket" ∷ path ∷ []

unfoldable pub kill_args : String → String → Bool → ℕ → List String
kill_args id signal all pid =
    "kill" ∷ id ∷ signal ∷ (if all then "--all" ∷ [] else [])
    ++ (if not (pid ==ℕ 0) then "--pid" ∷ itoa pid ∷ [] else [])

module _ (h : Host) where
  -- combinedOutput: the exit status that reaper.Wait returns is not looked at.
  unfoldable pub combined_output : List String → Task Reply
  combined_output args = do
    does (run_command args)
    refuse_if (not (h.run args).started) failed
    refuse_if (not (h.run args).waited) failed
    pure (h.run args)

  unfoldable pub exec_state : String → Task OciState
  unfolding combined_output
  exec_state id = do
    r ← combined_output ("state" ∷ id ∷ [])
    lift {A = OciState} (elim r.state [ none ↦ err failed | some s ↦ ok s ])

  unfoldable pub exec_delete : String → Task (Unit {0})
  unfolding combined_output
  exec_delete id = combined_output ("delete" ∷ id ∷ []) >> pure tt

  unfoldable pub exec_kill : String → String → Bool → ℕ → Task (Unit {0})
  unfolding combined_output kill_args
  exec_kill id signal all pid = combined_output (kill_args id signal all pid) >> pure tt

  unfoldable pub exec_start : String → Task (Unit {0})
  unfolding combined_output
  exec_start id = combined_output ("start" ∷ id ∷ []) >> pure tt

  -- The socket of a terminal.
  socket : Bool → Task (Option String)
  socket terminal s =
      if terminal
      then (elim h.console_socket [ none ↦ err failed | some path ↦ ok (some path) ], s)
      else (ok none, s)

  -- The console behind a socket.
  console : Option String → Task (Option ℕ)
  console none s = (ok none, s)
  console (some path) s =
      (elim h.receive_master [ none ↦ err failed | some con ↦ ok (some con) ], s)

  abbrev created : Option ℕ → Result Error (Unit {0})
  created none = err failed
  created (some status) = if status ==ℕ 0 then ok tt else err failed

  unfoldable pub exec_create : String → String → Bool → Task (Option ℕ)
  unfolding socket console wait_no_flush
  exec_create id bundle terminal = do
    path ← socket terminal
    let args = "create" ∷ id ∷ bundle ∷ console_args path
    does (run_command args)
    refuse_if (not (h.run args).started) failed
    lift (created (wait_no_flush (h.run args).pid (h.run args).exits))
    console path

  -- The pid of the started command, and its console.
  unfoldable pub exec_exec : String → String → Bool → Task (ℕ × Option ℕ)
  unfolding socket console
  exec_exec id process_json terminal = do
    path ← socket terminal
    let args = "extension" ∷ "exec" ∷ id ∷ "--process" ∷ process_json ∷ console_args path
    does (run_command args)
    refuse_if (not (h.run args).started) failed
    con ← console path
    pure ((h.run args).pid, con)

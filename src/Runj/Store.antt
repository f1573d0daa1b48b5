-- ===== src/Runj/Store.antt =====
-- state/state.go and state/dir.go: the state of one container, in its directory, and the monad of
-- the commands that work on it.
pub mod Laws
use runj.Prelude.{
  true, ℕ, String, Bool, Option, none, some, List, [], ◌∷◌, ◌++◌, not, Result, ok, err, ◌==◌,
  if◌then◌else◌,
}
use runj.Text.Decimal.{ℤ}
use runj.Status.{Status}
use runj.FilePath.{join}
use runj.Jail.Params.{CreateParams}
use runj.Jail.Mount.{Change}

pub record State : Type 0 where
  pub id : String
  pub jid : ℕ
  pub status : Status
  pub bundle : String
  pub pid : ℕ
  pub oci_version : String

-- What the hooks and the state command get.
pub record Output : Type 0 where
  pub oci_version : String
  pub id : String
  pub status : String
  pub pid : ℕ
  pub bundle : String
  pub annotations : List (String × String)

-- State.Output; `version` is the version of the runtime spec that runj supports.
unfoldable pub output : String → State → Output
output version s = record {
  oci_version = if s.oci_version == "" then version else s.oci_version;
  id = s.id;
  status = s.status;
  pid = s.pid;
  bundle = s.bundle;
  annotations = [];
}

-- What a command does to the jail and to processes.
pub data Effect : Type 0 where
  kill_all : ℤ → Effect
  kill_process : ℕ → ℤ → Effect
  -- SIGTERM for the entrypoint
  terminate : ℕ → Effect
  open_fifo remove_jail unmount_all : Effect
  run_hook : String → Output → Effect
  make_jail : CreateParams → ℕ → Effect
  -- what a call of Mount or of Unmount has changed
  mounting : List Change → Effect
  -- ifconfig, of an interface and a jail
  move_interface : String → String → ℕ → Effect
  -- the arguments and the environment of runj-entrypoint, and its pid
  start_entrypoint : List String → List String → ℕ → Effect
  exec_entrypoint : List String → List String → Effect
  kill_entrypoint : ℕ → Effect
  write_pid_file : String → String → Effect

-- The files in the directory of a container, and what the commands have done.
pub record World : Type 0 where
  -- whether state.json is there
  pub state_file : Bool
  -- what it holds: `none` if it is not there or does not parse
  pub state : Option State
  -- the copies of config.json and of runj.ext.json
  pub config : Option String
  pub extension : Option String
  -- whether exec.fifo is there
  pub fifo : Bool
  pub effects : List Effect

pub data CommandError : Type 0 where
  no_state not_saved no_config no_process already_running not_stopped : CommandError
  jail_failed fifo_failed unknown_signal not_running both_targets hook_failed : CommandError
  no_directory exists not_copied bad_console mount_failed vnet_failed : CommandError
  entrypoint_failed no_pid_file panicked : CommandError

-- Whether each file operation of Save succeeds: os.CreateTemp, the write, os.Rename.
pub record Disk : Type 0 where
  pub create_temp : Bool
  pub write : Bool
  pub rename : Bool

abbrev pub Command {ℓ} : Type ℓ → Type ℓ
Command A = World → Result CommandError A × World

module _ {ℓ} {A : Type ℓ} where
  abbrev pub done : A → Command A
  done a w = (ok a, w)

  abbrev pub fail : CommandError → Command A
  fail e w = (err e, w)

  abbrev pub answered : Option A → CommandError → Command A
  answered none e w = (err e, w)
  answered (some a) e w = (ok a, w)

abbrev pub fails_if : Bool → CommandError → Command (Unit {0})
fails_if b e w = (if b then err e else ok tt, w)

abbrev pub effect : Effect → Command (Unit {0})
effect x w = (ok tt, record w { effects = w.effects ++ x ∷ [] })

abbrev pub proceed {ℓ κ} :
    {A : Type ℓ} {B : Type κ}
    → Result CommandError A
    → (A → Command B)
    → World
    → Result CommandError B × World
proceed (ok a) f w = f a w
proceed (err e) f w = (err e, w)

infixl 10 ◌>>=◌ ◌>>◌
abbrev pub ◌>>=◌ {ℓ κ} : {A : Type ℓ} {B : Type κ} → Command A → (A → Command B) → Command B
◌>>=◌ m f w = let (r, w') = m w in proceed r f w'

abbrev pub ◌>>◌ {ℓ κ} : {A : Type ℓ} {B : Type κ} → Command A → Command B → Command B
m >> n = m >>= λ _. n

-- Load
unfoldable pub load : Command State
load w = answered w.state no_state w

-- Save: what os.Rename returns is not looked at.
unfoldable pub save : Disk → State → Command (Unit {0})
save d s w =
    if not d.create_temp
    then (err not_saved, w)
    else if not d.write
    then (err not_saved, w)
    else (ok tt, if d.rename then record w { state_file = true; state = some s } else w)

-- Dir
unfoldable pub dir : String → String
dir id = join "/var/lib/runj/jails" id

-- jail/entrypoint.go: fifoPath
unfoldable pub fifo_path : String → String
unfolding dir
fifo_path id = join (dir id) "exec.fifo"

-- ===== src/Containerd/Process.antt =====
-- containerd/managed_process.go and the streams of containerd/pio.go. A mutex makes each setter
-- and getter atomic; a getter is the field. File handles and consoles are numbers.
use runj.Prelude.{
  ℕ, String, Bool, true, false, ◌&&◌, not, Option, none, some, List, [], ◌∷◌, ◌++◌, ◌==ℕ◌,
  if◌then◌else◌,
}
use runj.Status.{Status}
use runj.Oci

-- runc.Exit
pub record Exit : Type 0 where
  pub timestamp : ℕ
  pub pid : ℕ
  pub status : ℕ

pub record Stdio : Type 0 where
  pub stdin : Option ℕ
  pub stdout : Option ℕ
  pub stderr : Option ℕ

abbrev pub no_stdio : Stdio
no_stdio = record { stdin = none; stdout = none; stderr = none }

pub record ManagedProcess : Type 0 where
  pub pid : ℕ
  pub exit : Exit
  -- whether the channel is still open; it is closed when the process ends
  pub waitblock : Bool
  pub pio : Stdio
  pub con : Option ℕ
  pub spec : Option Oci.Process
  pub specfile : String
  pub state : Status

-- &managedProcess{waitblock: make(chan struct{})}
abbrev pub new_process : ManagedProcess
new_process = record {
  pid = 0;
  exit = record { timestamp = 0; pid = 0; status = 0 };
  waitblock = true;
  pio = no_stdio;
  con = none;
  spec = none;
  specfile = "";
  state = "";
}

-- SetPID: whether the pid was stored, and the process. A pid is not changed to another one.
unfoldable pub set_pid : ManagedProcess → ℕ → Bool × ManagedProcess
set_pid m p =
    if not (m.pid ==ℕ 0) && not (m.pid ==ℕ p) then (false, m) else (true, record m { pid = p })

abbrev pub set_exited : Exit → ManagedProcess → ManagedProcess
set_exited e m = record m { exit = e }

abbrev pub set_stdio : Stdio → ManagedProcess → ManagedProcess
set_stdio pio m = record m { pio = pio }

abbrev pub set_console : Option ℕ → ManagedProcess → ManagedProcess
set_console con m = record m { con = con }

abbrev pub set_spec : Oci.Process → ManagedProcess → ManagedProcess
set_spec spec m = record m { spec = some spec }

abbrev pub set_specfile : String → ManagedProcess → ManagedProcess
set_specfile specfile m = record m { specfile = specfile }

abbrev pub set_state : Status → ManagedProcess → ManagedProcess
set_state state m = record m { state = state }

abbrev handle : Option ℕ → List ℕ
handle none = []
handle (some fd) = fd ∷ []

-- stdio.Close: the handles that are closed, in order
unfoldable pub open_handles : Stdio → List ℕ
open_handles s = handle s.stdin ++ handle s.stdout ++ handle s.stderr

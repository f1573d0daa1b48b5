-- ===== src/Examples.antt =====
-- Runs on concrete inputs: a service with a container and another process in it, and what the
-- theorems say of them.
mod Services
mod Values
mod Commands
mod Creation
mod Entry
mod Races
mod Images
mod Handles
use runj.Prelude.{ℕ, String, true, none, some, List, [], ◌∷◌}
use runj.Oci
use runj.Status.{status_created, status_running}
use runj.Containerd.Process.{Exit, ManagedProcess, new_process, no_stdio}
use runj.Containerd.Shim.{Shim, new_shim}
use runj.Containerd.Command.{Reply, OciState, Host, made}

-- Surroundings in which all goes well.
abbrev pub good_reply : Reply
good_reply = record {
  started = true;
  pid = 70;
  waited = true;
  status = 0;
  exits = record { timestamp = 1; pid = 70; status = 0 } ∷ [];
  state = some (record {
    oci_version = "1.0.2";
    id = "web";
    status = "created";
    pid = 42;
    bundle = "/bundle";
  });
}

abbrev pub good_host : Host
good_host = record {
  run = λ _. good_reply;
  console_socket = some "/tmp/pty.sock";
  receive_master = some 9;
  stat = λ _. true;
  open_fifo = λ _. some 5;
  make_dir = λ _. made;
  mount = λ _. true;
  read_config = λ _. none;
  write_config = λ _. true;
  copy_file = λ _ _. true;
  create_temp = some "/tmp/runj-process";
  encode_process = true;
  resize = true;
  now = 1000;
  shim_pid = 7;
}

abbrev pub shell : Oci.Process
shell = record { terminal = true; args = "sh" ∷ []; env = [] }

-- A running container with pid 42, in which a shell has been registered and another one runs.
abbrev pub web : Shim
web = record new_shim {
  id = "web";
  bundle_path = "/bundle";
  primary = record new_process { pid = 42 };
  auxiliary =
      (
        "registered",
        record new_process { spec = some shell; specfile = "/tmp/spec"; state = status_created },
      )
      ∷ (
        "shell",
        record new_process {
          pid = 50;
          spec = some shell;
          state = status_running;
          pio = record no_stdio { stdin = some 5 };
        },
      )
      ∷ [];
}

abbrev pub shell_exit : Exit
shell_exit = record { timestamp = 99; pid = 50; status = 3 }

-- What a container runs.
abbrev pub config : Oci.Spec
config = record {
  version = "1.0.2";
  process = some shell;
  root = none;
  hostname = "";
  domainname = "";
  mounts = [];
  hooks = none;
  annotations = [];
  freebsd = none;
}

-- ===== src/Examples/Commands.antt =====
-- Runs of the runj commands and of the mounts of a container.
use runj.Runj.Signal.{parse_signal-itoa, parse_signal}
use runj.Examples.{config}
use runj.Status.{status_running, status_created}
use runj.Runj.Commands.{
  clean_up_entrypoint, remove_state, finish_delete, load_config, config_of, refresh, Answers, kill,
  state, delete,
}
use runj.Runj.Commands.Laws.{kill_command_lem, state_command_lem, delete_command_lem}
use runj.Runj.Store.{State, World, output, load, kill_process}
use runj.Jail.Ps.{is_running, processes, exit_code}
use runj.FilePath.{join}
use runj.Jail.Mount.{absent, directory, Fs, mount, unmount}
use runj.Jail.Mount.Active.{unmount-mount, active}
use runj.Jail.Mount.Done.{mount_lem, Ends}
use runj.Oci.{Mount}
use runj.Text.Decimal.{atoi, itoa, ℤ, pos}
use runj.Prelude.{
  ◌∙◌, Option, sym, none, arith, String, ◌==◌, if◌then◌else◌, ℕ, ◌⊎◌, ◌≢◌, ◌==ℕ◌, ◌∷◌, ok, refl,
  false, some, ◌≡◌, List, ◌++◌, [], true,
}

abbrev pub answers : Answers
answers = record {
  disk = record { create_temp = true; write = true; rename = true };
  parse_spec = λ text. if text == "{}" then some config else none;
  parse_extension = λ text. none;
  ps = record { pid = λ pid. if pid ==ℕ 42 then processes 1 else exit_code 1; jail = exit_code 1 };
  open_fifo = true;
  fifo_data = true;
  remove_fifo = true;
  kill = true;
  cleanup_entrypoint = true;
  find_jail = true;
  remove_jail = true;
  unmount = true;
  remove_state = true;
  hook = λ _. true;
  version = "1.2.0";
}

abbrev pub created_state : State
created_state = record {
  id = "web";
  jid = 0;
  status = status_created;
  bundle = "/bundle";
  pid = 42;
  oci_version = "";
}

abbrev running_state : State
running_state = record created_state { status = status_running }

abbrev pub created_world : World
created_world = record {
  state_file = true;
  state = some created_state;
  config = some "{}";
  extension = none;
  fifo = true;
  effects = [];
}

abbrev pub running_world : World
running_world = record created_world { state = some running_state; fifo = false }

kill_command_lem_example :
    ((kill answers (some (pos 15)) false 0 running_world).0 ≢ ok tt
      × ((kill answers (some (pos 15)) false 0 running_world).1.effects ≡ []))
    ⊎ ((status_running ≡ status_running)
        × (is_running answers.ps 42 ≡ some true)
        × ((n : ℤ) × (some (pos 15) ≡ some n)
            × ((kill answers (some (pos 15)) false 0 running_world).1.effects
                ≡ kill_process 42 n ∷ []))
        × ((false ≡ false) ⊎ ◌≡◌ {A = ℕ} 0 0))
unfolding is_running
kill_command_lem_example =
    kill_command_lem answers running_world running_state (some (pos 15)) false 0 refl

state_command_lem_example :
    (is_running answers.ps 42 ≡ some true)
    × ((output "1.2.0" running_state).pid ≡ running_state.pid)
unfolding state load refresh output is_running
state_command_lem_example =
    state_command_lem answers running_world running_state (output "1.2.0" running_state) refl refl
      refl

abbrev deleted_world : World
deleted_world = (delete answers running_world).1

deleted_test : deleted_world.state ≡ none
unfolding delete load load_config clean_up_entrypoint finish_delete remove_state is_running
    config_of
deleted_test = refl

still_there : ◌≢◌ {A = Option State} none (some running_state)
still_there e = cc

delete_command_lem_example :
    (some false ≡ some false) × (true ≡ true) × (true ≡ true) × (true ≡ true)
unfolding delete load is_running
delete_command_lem_example =
    delete_command_lem answers running_world running_state refl
      (λ e. still_there (sym deleted_test ∙ e))

abbrev pub fs : Fs
fs = record {
  stat = λ _. directory;
  mkdir_all = λ _. true;
  create_file = λ _. true;
  mount = λ _ _. true;
  unmount = λ _. true;
}

abbrev mounts : List Mount
mounts =
    record {
      destination = "/data";
      type = "nullfs";
      source = "/srv";
      options = [];
      uid_mappings = [];
      gid_mappings = [];
    }
    ∷ record {
      destination = "/tmp";
      type = "tmpfs";
      source = "";
      options = [];
      uid_mappings = [];
      gid_mappings = [];
    }
    ∷ []

mount_lem_example : Ends fs "/bundle/root" mounts [] (mount fs "/bundle/root" mounts)
mount_lem_example = mount_lem fs "/bundle/root" (λ d. refl) mounts

unmount-mount_example :
    active ((mount fs "/bundle/root" mounts).1 ++ (unmount fs "/bundle/root" mounts).1) ("/" ∷ [])
    ≡ "/" ∷ []
unfolding mount
unmount-mount_example = unmount-mount fs (λ d. refl) "/bundle/root" mounts ("/" ∷ []) refl

-- A host on which the second source is missing: the first mount stays.
abbrev fs_without_tmp : Fs
fs_without_tmp = record fs { stat = λ path. if path == "/missing" then absent else directory }

abbrev mounts_without_source : List Mount
mounts_without_source =
    record {
      destination = "/data";
      type = "nullfs";
      source = "/srv";
      options = [];
      uid_mappings = [];
      gid_mappings = [];
    }
    ∷ record {
      destination = "/more";
      type = "nullfs";
      source = "/missing";
      options = [];
      uid_mappings = [];
      gid_mappings = [];
    }
    ∷ []

mount_left_test :
    active (mount fs_without_tmp "/root" mounts_without_source).1 [] ≡ "/root/data" ∷ []
unfolding mount active join
mount_left_test = refl

abbrev signal_table : String → ℕ
signal_table s = if s == "SIGTERM" then 15 else 0

parse_signal_test : parse_signal (λ s. s) signal_table "TERM" ≡ some (pos 15)
unfolding parse_signal atoi
parse_signal_test = refl

parse_signal-itoa_example : parse_signal (λ s. s) signal_table (itoa 9) ≡ some (pos 9)
parse_signal-itoa_example = parse_signal-itoa (λ s. s) signal_table 9 (omega arith)

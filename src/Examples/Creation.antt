-- ===== src/Examples/Creation.antt =====
-- Runs of the create command, and of commands on the container that it makes.
use runj.FilePath.{join}
use runj.Prelude.{
  ℕ, inl, true≢false, ◌≡◌, ◌≢◌, refl, true, false, some, none, [], ◌∷◌, ok, ◌==◌, if◌then◌else◌,
}
use runj.Oci
use runj.Jail.Params.{
  iovec, optional_string, host_block, vnet_block, ip4_block, ip4_addr_block, ip6_block,
  ip6_addr_block, enforce_statfs_block,
}
use runj.Jail.Iovec.{string_iovec, nil_iovec}
use runj.Text.{has_nul, bytes}
use runj.Jail.Mount.{mount}
use runj.Status.{status_created, status_running}
use runj.Runj.Store.{World, State, Disk}
use runj.Runj.Commands
use runj.Runj.Commands.{Answers, config_of, missing_process}
use runj.Runj.Create.{create_runtime, root_path, Surroundings}
use runj.Runj.Create.Stages
use runj.Runj.Create.Success.{create_lem}
use runj.Runj.Lifecycle.{Call, perform, perform_all, phase, Step, Sound}
use runj.Runj.Lifecycle
use runj.Runj.Lifecycle.Refinement.{perform-refines}
use runj.Runj.Lifecycle.Once.{empty_world, empty-Sound, perform_all-Sound, start-once}
use runj.Runj.Lifecycle.Run.{create-start}
use runj.Examples.{config}
use runj.Examples.Commands.{answers, fs, created_world}

abbrev shell_config : Oci.Spec
shell_config = record config {
  process = some (record { terminal = false; args = "sh" ∷ []; env = [] });
}

abbrev shell_answers : Answers
shell_answers = record answers {
  parse_spec = λ text. if text == "{}" then some shell_config else none;
}

abbrev disk : Disk
disk = record { create_temp = true; write = true; rename = true }

-- Surroundings in which a create command succeeds.
abbrev good : Surroundings
good = record {
  answers = shell_answers;
  first_save = disk;
  last_save = disk;
  make_dir = true;
  create_state_file = true;
  read = λ _. some "{}";
  create_copy = λ _. true;
  write_copy = λ _. true;
  stat = λ _. none;
  parse_addr = λ _. none;
  jail_set = λ _. some 3;
  fs = fs;
  ifconfig = λ _ _. true;
  make_fifo = true;
  dial = true;
  unix_conn = true;
  conn_file = true;
  start_entrypoint = some 42;
  write_file = λ _. true;
}

abbrev without_entrypoint : Surroundings
without_entrypoint = record good { start_entrypoint = none }

abbrev create_good : World
create_good = (Stages.create good "web" "" "/run/web.pid" "/bundle" empty_world).1

create_test : (Stages.create good "web" "" "/run/web.pid" "/bundle" empty_world).0 ≡ ok tt
unfolding Stages.create config_of root_path iovec mount string_iovec has_nul bytes join
    optional_string host_block vnet_block ip4_block ip4_addr_block ip6_block ip6_addr_block
    enforce_statfs_block nil_iovec create_runtime
create_test = refl

create_lem_example :
    (false ≡ false)
    × (create_good.config ≡ some "{}")
    × (create_good.fifo ≡ true)
    × ((pid : ℕ) × (spec : Oci.Spec) × (some 42 ≡ some pid)
        × (config_of shell_answers create_good.config create_good.extension ≡ some spec)
        × (create_good.state
            ≡ some (record {
              id = "web";
              jid = 0;
              status = status_created;
              bundle = "/bundle";
              pid = pid;
              oci_version = spec.version;
            })))
create_lem_example = create_lem good "web" "" "/run/web.pid" "/bundle" empty_world create_test refl

perform-refines_example :
    Step none (phase (perform (Lifecycle.create good "web" "" "" "/bundle") empty_world).1.state)
    × Sound (perform (Lifecycle.create good "web" "" "" "/bundle") empty_world).1
perform-refines_example =
    perform-refines (Lifecycle.create good "web" "" "" "/bundle") empty_world empty-Sound

perform_all-Sound_example : Sound (
    perform_all
      (Lifecycle.create good "web" "" "" "/bundle" ∷ Lifecycle.start shell_answers ∷ [])
      empty_world)
perform_all-Sound_example =
    perform_all-Sound
      (Lifecycle.create good "web" "" "" "/bundle" ∷ Lifecycle.start shell_answers ∷ []) empty_world
      empty-Sound

created_Sound : Sound created_world
created_Sound = record { absent = λ n. absurd (true≢false n); waiting = λ f. inl refl }

start_test : (Commands.start answers created_world).0 ≡ ok tt
unfolding Commands.start config_of
start_test = refl

start-once_example :
    (Commands.start answers
      (perform_all (Lifecycle.state answers ∷ []) (Commands.start answers created_world).1)).0
    ≢ ok tt
start-once_example =
    start-once answers answers (Lifecycle.state answers ∷ []) created_world created_Sound start_test
      (refl, tt)

read_test : config_of shell_answers create_good.config create_good.extension ≡ some shell_config
unfolding Stages.create config_of root_path iovec mount string_iovec has_nul bytes join
    optional_string host_block vnet_block ip4_block ip4_addr_block ip6_block ip6_addr_block
    enforce_statfs_block nil_iovec create_runtime
read_test = refl

has_args : missing_process shell_config.process ≡ false
unfolding missing_process
has_args = refl

create-start_example :
    ((Commands.start shell_answers create_good).0 ≡ ok tt)
    × (true ≡ true
        → (s : State) × ((Commands.start shell_answers create_good).1.state ≡ some s)
          × (s.status ≡ status_running)
          × (s.id ≡ "web"))
create-start_example =
    create-start good "web" "" "/run/web.pid" "/bundle" empty_world shell_answers shell_config
      create_test refl refl refl read_test has_args (refl, refl, refl, refl, refl)

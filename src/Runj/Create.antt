-- ===== src/Runj/Create.antt =====
-- cmd/runj/create.go: the create command, with oci.StoreConfig and util.CopyFile, jail.Create,
-- MoveVNetInterfaces of jail/vnet.go and SetupEntrypoint of jail/entrypoint.go.
pub mod Stages
pub mod Cleanup
pub mod Kept
pub mod Trace
pub mod Unwind
pub mod Failure
pub mod Prepared
pub mod Success
use runj.Prelude.{
  ◌&&◌, true, false, ℕ, String, Bool, Option, none, some, List, [], ◌∷◌, ◌++◌, not, ok, err, ◌==◌,
  ◌!=◌, ◌==ℕ◌, if◌then◌else◌, is_empty, Result, suc,
}
use runj.FilePath.{join, is_rooted}
use runj.Text.Decimal.{itoa}
use runj.Status.{status_creating, status_created}
use runj.Oci
use runj.Jail.Iovec.{Iovec, Addr}
use runj.Jail.Params.{CreateParams, iovec}
use runj.Jail.Mount.{Fs, mount, unmount, MountError}
use runj.Runj.Store.{
  CommandError, World, panicked, exists, no_directory, not_copied, bad_console, State, output, Disk,
  Command, done, answered, fails_if, effect, save, ◌>>=◌, ◌>>◌, fifo_path,
}
use runj.Runj.Commands.{Answers, load_config, run_hooks, remove_state}

-- What the kernel and the file system answer to the create command.
pub record Surroundings : Type 0 where
  pub answers : Answers
  -- the writes of state.json at the start and at the end
  pub first_save : Disk
  pub last_save : Disk
  pub make_dir : Bool
  pub create_state_file : Bool
  -- util.CopyFile of a path: the text that is there, and whether the copy is created and written
  pub read : String → Option String
  pub create_copy : String → Bool
  pub write_copy : String → Bool
  -- os.Stat of a path: `none` is an error, otherwise whether it is a socket
  pub stat : String → Option Bool
  pub parse_addr : String → Option Addr
  -- jail_set(2)
  pub jail_set : List Iovec → Option ℕ
  pub fs : Fs
  pub ifconfig : String → String → Bool
  pub make_fifo : Bool
  -- net.Dial, its cast, and the file of the connection
  pub dial : Bool
  pub unix_conn : Bool
  pub conn_file : Bool
  -- the start of runj-entrypoint
  pub start_entrypoint : Option ℕ
  pub write_file : String → Bool

abbrev pub settle {ℓ} :
    {A : Type ℓ}
    → Result CommandError A
    → World
    → Command (Unit {0})
    → Result CommandError A × World
settle (ok a) w cleanup = (ok a, w)
settle (err e) w cleanup = (err e, (cleanup w).1)

-- `if err != nil` in a deferred function: `cleanup`, whose own error is dropped
unfoldable pub on_failure {ℓ} : {A : Type ℓ} → Command (Unit {0}) → Command A → Command A
on_failure cleanup body w = settle (body w).0 (body w).1 cleanup

abbrev pub settle_caught : Result CommandError (Unit {0}) → World → Result CommandError Bool × World
settle_caught (ok a) w = (ok false, w)
settle_caught (err panicked) w = (ok true, w)
settle_caught (err e) w = (err e, w)

-- Whether a hook panics. The deferred functions then find `err` as it was: nil.
unfoldable pub caught : Command (Unit {0}) → Command Bool
caught body w = settle_caught (body w).0 (body w).1

abbrev has : Option String → Bool
has none = false
has (some b) = true

-- PreRunE: the bundle is the second argument or the flag, and holds a regular config.json.
-- `regular` is os.Stat of a path: `none` is an error, otherwise whether it is a regular file.
unfoldable pub chosen_bundle : Option String → String → (String → Option Bool) → Option String
chosen_bundle argument flag regular =
    let bundle : String = elim argument [ none ↦ flag | some b ↦ b ] in
    if has argument && (flag != "")
    then none
    else if bundle == ""
    then none
    else elim (regular (join bundle "config.json")) [
      | none ↦ none
      | some is_regular ↦ if is_regular then some bundle else none
    ]

-- The validation of the console socket, with os.Stat as `Surroundings` has it
unfoldable pub valid_console : (String → Option Bool) → Bool → String → Command (Unit {0})
valid_console stat terminal socket =
    if terminal
    then (do
      fails_if (socket == "") bad_console
      is_socket ← answered (stat socket) bad_console
      fails_if (not is_socket) bad_console)
    else fails_if (socket != "") bad_console

unfoldable pub root_path : String → Option Oci.Root → String
root_path bundle none = join bundle "root"
root_path bundle (some r) =
    if r.path == ""
    then join bundle "root"
    else if is_rooted r.path
    then r.path
    else join bundle r.path

-- The jail section of a spec, where there is one.
unfoldable pub jail_section : Option Oci.FreeBsd → Option Oci.FreeBsdJail
jail_section none = none
jail_section (some f) = f.jail

unfoldable pub jail_params : String → String → Oci.Spec → CreateParams
unfolding jail_section
jail_params id root spec =
    let params : CreateParams = record {
      name = id;
      root = root;
      hostname = spec.hostname;
      domainname = spec.domainname;
      host = "";
      ip4 = "";
      ip4_addr = [];
      ip6 = "";
      ip6_addr = [];
      vnet = "";
      vnet_interface = [];
      enforce_statfs = none;
    } in
    elim (jail_section spec.freebsd) [
      | none ↦ params
      | some j ↦ record params {
        host = j.host;
        ip4 = j.ip4;
        ip4_addr = j.ip4_addr;
        ip6 = j.ip6;
        ip6_addr = j.ip6_addr;
        vnet = j.vnet;
        vnet_interface = j.vnet_interfaces;
        enforce_statfs = j.enforce_statfs;
      }
    ]

unfoldable pub interfaces : Option Oci.FreeBsdJail → List String
interfaces none = []
interfaces (some j) = j.vnet_interfaces

unfoldable pub create_runtime : Option Oci.Hooks → List Oci.Hook
create_runtime none = []
create_runtime (some hooks) = hooks.create_runtime

abbrev pub new_state : String → String → State
new_state id bundle = record {
  id = id;
  jid = 0;
  status = status_creating;
  bundle = bundle;
  pid = 0;
  oci_version = "";
}

module _ (h : Surroundings) where
  -- initialize
  unfoldable pub initialize : State → Command (Unit {0})
  unfolding save
  initialize s w =
      if w.state_file
      then (err exists, w)
      else if not h.create_state_file
      then (err exists, w)
      else save h.first_save s (record w { state_file = true; state = none })

  -- state.Create
  unfoldable pub create_state : String → String → Command State
  unfolding initialize
  create_state id bundle = do
    fails_if (not h.make_dir) no_directory
    initialize (new_state id bundle)
    done (new_state id bundle)

  -- CopyFile to a file that holds `copy`, which must not be there: the text that it then holds
  unfoldable pub copy_file : String → Option String → Option String
  copy_file source (some copy) = none
  copy_file source none = elim (h.read source) [
    | none ↦ none
    | some text ↦
        if not (h.create_copy source) then none else if h.write_copy source then some text else none
  ]

  copy_config : String → Command (Unit {0})
  unfolding copy_file
  copy_config source w = elim (copy_file source w.config) [
    | none ↦ (err not_copied, w)
    | some text ↦ (ok tt, record w { config = some text })
  ]

  copy_extension : String → Command (Unit {0})
  unfolding copy_file
  copy_extension source w = elim (copy_file source w.extension) [
    | none ↦ (err not_copied, w)
    | some text ↦ (ok tt, record w { extension = some text })
  ]

  -- StoreConfig
  unfoldable pub store_config : String → Command (Unit {0})
  unfolding copy_config copy_extension
  store_config bundle = do
    copy_config (join bundle "config.json")
    elim (h.stat (join bundle "runj.ext.json")) [
      | none ↦ done tt
      | some socket ↦ copy_extension (join bundle "runj.ext.json")
    ]

  unfoldable pub check_console : Bool → String → Command (Unit {0})
  unfolding valid_console
  check_console terminal socket = valid_console h.stat terminal socket

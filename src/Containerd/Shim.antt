-- ===== src/Containerd/Shim.antt =====
-- The state of containerd/shim.go's service, what it does to its surroundings, and the monad of
-- its methods: a method that fails keeps what it has done so far.
use runj.Prelude.{
  ℕ, String, Bool, true, List, [], ◌∷◌, ◌++◌, Result, ok, err, ◌%◌, ◌^◌, if◌then◌else◌,
}
use runj.Oci
use runj.Containerd.Process.{ManagedProcess, new_process}

-- The errdefs kinds, an error that comes from elsewhere, and a Go panic.
pub data Error : Type 0 where
  invalid_argument failed_precondition not_found already_exists not_implemented : Error
  bad_file_name failed : Error
  panicked : Error

-- containerd's cmount.Mount
pub record CMount : Type 0 where
  pub type : String
  pub source : String
  pub target : String
  pub options : List String

-- What the service publishes.
pub data Event : Type 0 where
  task_create : String → String → List CMount → ℕ → Event
  task_start : String → ℕ → Event
  task_exit : String → String → ℕ → ℕ → ℕ → Event
  task_delete task_oom task_paused task_resumed task_checkpointed : Event
  task_exec_added : String → String → Event
  task_exec_started : String → String → ℕ → Event
  other_event : Event

-- What the service does outside its own memory.
pub data Action : Type 0 where
  run_command : List String → Action
  make_dir recursive_unmount remove_file : String → Action
  mount_component : CMount → String → Action
  close_handle : ℕ → Action
  copy_file : String → String → Action
  write_config : String → Oci.Spec → Action
  write_process : String → Oci.Process → Action
  resize : ℕ → ℕ → ℕ → Action

-- The fields of `service` that its methods use.
pub record Shim : Type 0 where
  pub id : String
  pub bundle_path : String
  pub primary : ManagedProcess
  pub auxiliary : List (String × ManagedProcess)
  -- processes that are no longer in the map; a Wait that is pending still points to its process
  pub released : List ManagedProcess
  -- what was sent on the channel, and whether it is still open
  pub events : List Event
  pub events_open : Bool
  pub actions : List Action

abbrev pub new_shim : Shim
new_shim = record {
  id = "";
  bundle_path = "";
  primary = new_process;
  auxiliary = [];
  released = [];
  events = [];
  events_open = true;
  actions = [];
}

abbrev pub Task {ℓ} : Type ℓ → Type ℓ
Task A = Shim → Result Error A × Shim

module _ {ℓ} {A : Type ℓ} where
  abbrev pub pure : A → Task A
  pure a s = (ok a, s)

  abbrev pub raise : Error → Task A
  raise e s = (err e, s)

  abbrev pub lift : Result Error A → Task A
  lift r s = (r, s)

  abbrev pub gets : (Shim → A) → Task A
  gets f s = (ok (f s), s)

abbrev pub modify : (Shim → Shim) → Task (Unit {0})
modify f s = (ok tt, f s)

-- `if b { return nil, e }`
abbrev pub refuse_if : Bool → Error → Task (Unit {0})
refuse_if b e s = (if b then err e else ok tt, s)

abbrev pub continue {ℓ κ} :
    {A : Type ℓ} {B : Type κ} → Result Error A → (A → Task B) → Shim → Result Error B × Shim
continue (ok a) f s = f a s
continue (err e) f s = (err e, s)

infixl 10 ◌>>=◌ ◌>>◌
abbrev pub ◌>>=◌ {ℓ κ} : {A : Type ℓ} {B : Type κ} → Task A → (A → Task B) → Task B
◌>>=◌ m f s = let (r, s') = m s in continue r f s'

abbrev pub ◌>>◌ {ℓ κ} : {A : Type ℓ} {B : Type κ} → Task A → Task B → Task B
m >> n = m >>= λ _. n

-- A failure that is only logged.
abbrev pub ignore {ℓ} : {A : Type ℓ} → Task A → Task (Unit {0})
ignore m s = (ok tt, (m s).1)

-- `defer` of a cleanup that runs if the body returns an error. While a panic unwinds, the error
-- variable that the cleanup tests is still nil.
abbrev pub on_error {ℓ} :
    {A : Type ℓ} → Result Error A × Shim → (Shim → Shim) → Result Error A × Shim
on_error (err panicked, s) f = (err panicked, s)
on_error (err e, s) f = (err e, f s)
on_error (ok a, s) f = (ok a, s)

abbrev pub deferred_on_error {ℓ} : {A : Type ℓ} → (Shim → Shim) → Task A → Task A
deferred_on_error f m s = on_error (m s) f

-- The result and the error of a call, which the caller looks at.
abbrev pub attempt {ℓ} : {A : Type ℓ} → Task A → Task (Result Error A)
attempt m s = let (r, s') = m s in (ok r, s')

abbrev pub act : Action → Shim → Shim
act a s = record s { actions = s.actions ++ a ∷ [] }

abbrev pub does : Action → Task (Unit {0})
does a = modify (act a)

-- uint32(n)
abbrev pub u32 : ℕ → ℕ
u32 n = n % 2 ^ 32

-- sendL and sendUnsafe: a send on the closed channel panics.
unfoldable pub send : Event → Task (Unit {0})
send e s =
    if s.events_open then (ok tt, record s { events = s.events ++ e ∷ [] }) else (err panicked, s)

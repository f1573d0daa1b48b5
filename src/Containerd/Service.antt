-- ===== src/Containerd/Service.antt =====
-- containerd/shim.go: the callbacks that Shutdown runs, and the forwarding of events to containerd.
pub mod Closed
use runj.Prelude.{
  false, String, Bool, Option, none, some, ◌≡◌, arith, List, [], ◌∷◌, ◌!=◌, if◌then◌else◌,
}
use runj.Containerd.Shim.{
  Shim, new_shim, Task, Event, task_create, task_start, task_exit, task_delete, task_oom,
  task_paused, task_resumed, task_checkpointed, task_exec_added, task_exec_started, other_event,
  pure, modify, does, remove_file, ◌>>=◌, ◌>>◌,
}

-- The topics of containerd's runtime package.
pub record Topics : Type 0 where
  pub create : String
  pub start : String
  pub oom : String
  pub exit : String
  pub delete : String
  pub exec_added : String
  pub exec_started : String
  pub paused : String
  pub resumed : String
  pub checkpointed : String
  pub unknown : String

-- mapTopic
unfoldable pub map_topic : Topics → Event → String
map_topic t (task_create id bundle rootfs pid) = t.create
map_topic t (task_start id pid) = t.start
map_topic t (task_exit id exec_id pid status time) = t.exit
map_topic t task_delete = t.delete
map_topic t task_oom = t.oom
map_topic t task_paused = t.paused
map_topic t task_resumed = t.resumed
map_topic t task_checkpointed = t.checkpointed
map_topic t (task_exec_added id exec_id) = t.exec_added
map_topic t (task_exec_started id exec_id pid) = t.exec_started
map_topic t other_event = t.unknown

-- forward, of the events that are sent before the channel is closed: those that the publisher takes;
-- an event that it does not take is only logged.
unfoldable pub forward : Topics → (String → Event → Bool) → List Event → List (String × Event)
unfolding map_topic
forward t publish [] = []
forward t publish (e ∷ es) =
    let rest = forward t publish es in
    if publish (map_topic t e) e then (map_topic t e, e) ∷ rest else rest

-- The callbacks that NewTaskService registers, which Shutdown has run: the channel of events is
-- closed and the socket removed.
unfoldable pub shutdown : String → Task (Unit {0})
shutdown address = do
  modify (λ s. record s { events_open = false })
  if address != "" then does (remove_file address) else pure tt

pub data Callback : Type 0 where
  close_events : Callback
  remove_socket : String → Callback

-- NewTaskService, of the answer of shim.ReadAddress: the service, and the callbacks that it
-- registers. SetupReaperSignals, whose error is dropped, and the two goroutines have no part in it.
unfoldable pub new_task_service : Option String → Shim × List Callback
new_task_service answer =
    let address : String = elim answer [ none ↦ "" | some a ↦ a ] in
    (new_shim, close_events ∷ (if address != "" then remove_socket address ∷ [] else []))

unfoldable pub run_callback : Callback → Task (Unit {0})
run_callback close_events = modify (λ s. record s { events_open = false })
run_callback (remove_socket address) = does (remove_file address)

-- Shutdown of the shutdown service: each callback in turn
unfoldable pub run_callbacks : List Callback → Task (Unit {0})
unfolding run_callback
run_callbacks [] = pure tt
run_callbacks (c ∷ cs) = run_callback c >>= λ _. run_callbacks cs

-- `shutdown` is what the callbacks of a new service do.
shutdown-new_task_service :
    (address : String) (s : Shim)
    → run_callbacks (new_task_service (some address)).1 s ≡ shutdown address s
unfolding run_callbacks new_task_service shutdown
shutdown-new_task_service address s = ground arith

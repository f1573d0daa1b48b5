-- ===== src/Examples/Races.antt =====
-- Runs of startAux and the reaper: the exit comes after startAux has returned, is dropped, or is
-- overwritten.
use runj.Prelude.{◌≤◌, ◌≡◌, ◌⊎◌, refl, true, false, none, [], ◌∷◌, arith}
use runj.Status.{status_created, status_running, status_stopped}
use runj.Containerd.Process.{ManagedProcess, Exit, new_process, set_pid, set_state}
use runj.Containerd.Shim.{task_exec_started, task_exit}
use runj.Containerd.Race.{
  Step, holds_lock, found_in, System, Run, rest, then_step, initial, returned, alive, ended,
  dropped, lock, spawn, answer, store_pid, store_console, store_state, send_started, exit, look_up,
  store_stopped, store_exit, send_exited, close_streams, close_recorded,
}
use runj.Containerd.Race.Order.{race_lem, InOrder, Recorded, Lost}
use runj.Containerd.Race.After.{exit_after_start, steps}

abbrev exit_seven : Exit
exit_seven = record { timestamp = 9; pid = 7; status = 1 }

abbrev added : ManagedProcess
added = set_state status_created new_process

abbrev Runs : System → System → Type 0
Runs = Run "web" "ps" none exit_seven

abbrev running : System
running = record {
  starter = returned;
  reaper = alive;
  proc = record added { pid = 7; state = status_running; exit = added.exit; waitblock = true };
  events = task_exec_started "web" "ps" 7 ∷ [];
}

abbrev recorded : System
recorded = record {
  starter = returned;
  reaper = ended;
  proc = record added { pid = 7; state = status_stopped; exit = exit_seven; waitblock = false };
  events = task_exec_started "web" "ps" 7 ∷ task_exit "web" "ps" 7 1 9 ∷ [];
}

abbrev overwritten : System
overwritten = record {
  starter = returned;
  reaper = ended;
  proc = record added { pid = 7; state = status_running; exit = exit_seven; waitblock = false };
  events = task_exec_started "web" "ps" 7 ∷ task_exit "web" "ps" 7 1 9 ∷ [];
}

abbrev lost : System
lost = record {
  starter = returned;
  reaper = dropped;
  proc = record added { pid = 7; state = status_running; exit = added.exit; waitblock = true };
  events = task_exec_started "web" "ps" 7 ∷ [];
}

start_first : Runs (initial added) running
unfolding holds_lock found_in set_pid
start_first =
    then_step
      (then_step
        (then_step
          (then_step
            (then_step (then_step (then_step (rest _) (lock _ _ _)) (spawn _ _)) (answer _ _ _))
            (store_pid _ _ _))
          (store_console _ _ _))
        (store_state _ _ _))
      (send_started _ _ _)

exit_last : Runs running recorded
unfolding holds_lock found_in set_pid
exit_last =
    then_step
      (then_step
        (then_step
          (then_step
            (then_step (then_step (then_step (rest _) (exit _ _ _)) (look_up _ _ _))
              (store_stopped _ _ _))
            (store_exit _ _ _))
          (send_exited _ _ _ refl))
        (close_streams _ _ _))
      (close_recorded _ _ _)

-- The exit comes before startAux has stored the pid.
exit_dropped : Runs (initial added) lost
unfolding holds_lock found_in set_pid
exit_dropped =
    then_step
      (then_step
        (then_step
          (then_step
            (then_step
              (then_step
                (then_step (then_step (then_step (rest _) (lock _ _ _)) (spawn _ _)) (exit _ _ _))
                (look_up _ _ _))
              (answer _ _ _))
            (store_pid _ _ _))
          (store_console _ _ _))
        (store_state _ _ _))
      (send_started _ _ _)

-- The reaper stores its state before startAux does.
state_overwritten : Runs (initial added) overwritten
unfolding holds_lock found_in set_pid
state_overwritten =
    then_step
      (then_step
        (then_step
          (then_step
            (then_step
              (then_step
                (then_step
                  (then_step
                    (then_step
                      (then_step
                        (then_step
                          (then_step (then_step (then_step (rest _) (lock _ _ _)) (spawn _ _))
                            (answer _ _ _))
                          (store_pid _ _ _))
                        (exit _ _ _))
                      (look_up _ _ _))
                    (store_stopped _ _ _))
                  (store_console _ _ _))
                (store_state _ _ _))
              (send_started _ _ _))
            (store_exit _ _ _))
          (send_exited _ _ _ refl))
        (close_streams _ _ _))
      (close_recorded _ _ _)

race_lem_example :
    InOrder "web" "ps" none exit_seven lost.events
    × (lost.starter ≡ returned
        → lost.reaper ≡ ended
        → Recorded "web" "ps" none exit_seven lost
          × ((lost.proc.state ≡ status_stopped) ⊎ (lost.proc.state ≡ status_running)))
    × (lost.starter ≡ returned → lost.reaper ≡ dropped → Lost "web" "ps" none exit_seven added lost)
race_lem_example =
    race_lem "web" "ps" none exit_seven added lost refl refl (omega arith) exit_dropped

exit_after_start_example :
    (steps "web" "ps" none exit_seven exit_last ≤ 7)
    × (((v : System) → Step "web" "ps" none exit_seven recorded v → ⊥)
        → (recorded.reaper ≡ ended)
          × Recorded "web" "ps" none exit_seven recorded
          × (recorded.proc.state ≡ status_stopped))
exit_after_start_example =
    exit_after_start "web" "ps" none exit_seven added running recorded refl refl (omega arith)
      start_first refl refl exit_last

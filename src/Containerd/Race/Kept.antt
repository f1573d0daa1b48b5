-- ===== src/Containerd/Race/Kept.antt =====
-- What holds between startAux and the reaper in every interleaving.
use runj.Prelude.{
  ℕ, String, Bool, true, false, not, ◌≡◌, ◌≢◌, ◌⊎◌, Option, List, [], ◌∷◌, ◌++◌, if◌then◌else◌,
  arith,
}
use runj.Status.{status_running, status_stopped}
use runj.Containerd.Process.{ManagedProcess, Exit, set_pid}
use runj.Containerd.Race.{
  Starter, Reaper, System, Step, Run, rest, then_step, holds_lock, found_in, initial, started,
  exited, storing_console, storing_state, returned, failed, unborn, alive, finding, recording,
  ended, dropped, lock, spawn, not_spawned, not_answered, answer, store_pid, store_console,
  store_state, send_started, store_failure, close_failed, exit, look_up, store_stopped, store_exit,
  send_exited, close_streams, close_recorded,
}

-- startAux has stored the pid.
abbrev pub has_pid : Starter → Bool
has_pid storing_console = true
has_pid storing_state = true
has_pid Starter.sending = true
has_pid returned = true
has_pid _ = false

abbrev pub has_state : Starter → Bool
has_state Starter.sending = true
has_state returned = true
has_state _ = false

abbrev pub is_returned : Starter → Bool
is_returned returned = true
is_returned _ = false

-- findProcess has found the process; its state, its exit and its event are stored and sent.
abbrev pub has_found : Reaper → Bool
has_found unborn = false
has_found alive = false
has_found finding = false
has_found dropped = false
has_found _ = true

abbrev pub has_stopped : Reaper → Bool
has_stopped Reaper.stopping = false
has_stopped r = has_found r

abbrev pub has_recorded : Reaper → Bool
has_recorded recording = false
has_recorded r = has_stopped r

abbrev pub has_sent : Reaper → Bool
has_sent Reaper.sending = false
has_sent r = has_recorded r

-- The channel of those that wait is closed.
abbrev pub is_closed : Starter → Reaper → Bool
is_closed failed r = true
is_closed s ended = true
is_closed s r = false

-- The state that startAux has stored last; `old` is that of before.
abbrev pub stored : String → Starter → String
stored old Starter.sending = status_running
stored old returned = status_running
stored old Starter.closing = status_stopped
stored old failed = status_stopped
stored old _ = old

abbrev pub sent {ℓ} : {A : Type ℓ} → Bool → A → List A
sent true x = x ∷ []
sent false x = []

module _ (id exec_id : String) (con : Option ℕ) (e : Exit) (m₀ : ManagedProcess) where
  pub record Kept (s : System) : Type 0 where
    pub pids : s.proc.pid ≡ (if has_pid s.starter then e.pid else 0)
    pub finds : has_found s.reaper ≡ true → has_pid s.starter ≡ true
    pub sends :
        s.events
        ≡ sent (is_returned s.starter) (started id exec_id con e)
          ++ sent (has_sent s.reaper) (exited id exec_id con e)
    pub order : has_sent s.reaper ≡ true → is_returned s.starter ≡ true
    pub kept_state : has_stopped s.reaper ≡ false → s.proc.state ≡ stored m₀.state s.starter
    pub both_states :
        has_stopped s.reaper ≡ true
        → (s.proc.state ≡ status_stopped)
          ⊎ ((s.proc.state ≡ status_running) × (has_state s.starter ≡ true))
    pub exits : has_recorded s.reaper ≡ true → s.proc.exit ≡ e
    pub no_exit : has_recorded s.reaper ≡ false → s.proc.exit ≡ m₀.exit
    pub block : s.proc.waitblock ≡ not (is_closed s.starter s.reaper)

  pub step-Kept : (s t : System) → e.pid ≢ 0 → Step id exec_id con e s t → Kept s → Kept t
  unfolding holds_lock found_in set_pid
  step-Kept _ _ p (lock r m es) k = ground (arith, k)
  step-Kept _ _ p (spawn m es) k = ground (arith, k)
  step-Kept _ _ p (not_spawned r m es) k = ground (arith, k)
  step-Kept _ _ p (not_answered r m es) k = ground (arith, k)
  step-Kept _ _ p (answer r m es) k = ground (arith, k)
  step-Kept _ _ p (store_pid r m es) k = ground (arith, k)
  step-Kept _ _ p (store_console r m es) k = ground (arith, k)
  step-Kept _ _ p (store_state r m es) k = ground (arith, k)
  step-Kept _ _ p (send_started r m es) k = ground (arith, k)
  step-Kept _ _ p (store_failure r m es) k = ground (arith, k)
  step-Kept _ _ p (close_failed r m es) k = ground (arith, k)
  step-Kept _ _ p (exit s m es) k = ground (arith, k)
  step-Kept _ _ p (look_up s m es) k = ground (arith, k)
  step-Kept _ _ p (store_stopped s m es) k = ground (arith, k)
  step-Kept _ _ p (store_exit s m es) k = ground (arith, k)
  step-Kept _ _ p (send_exited s m es h) k = ground (arith, k)
  step-Kept _ _ p (close_streams s m es) k = ground (arith, k)
  step-Kept _ _ p (close_recorded s m es) k = ground (arith, k)

  initial-Kept : m₀.pid ≡ 0 → m₀.waitblock ≡ true → Kept (initial m₀)
  initial-Kept p b = ground arith

  pub run-Kept : (s t : System) → e.pid ≢ 0 → Kept s → Run id exec_id con e s t → Kept t
  run-Kept _ _ p k (rest s) = k
  run-Kept _ _ p k (then_step {s} {t} {u} r x) = step-Kept t u p x (run-Kept s t p k r)

  pub reached-Kept :
      (s : System)
      → m₀.pid ≡ 0
      → m₀.waitblock ≡ true
      → e.pid ≢ 0
      → Run id exec_id con e (initial m₀) s
      → Kept s
  reached-Kept s p b q r = run-Kept (initial m₀) s q (initial-Kept p b) r

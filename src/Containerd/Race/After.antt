-- ===== src/Containerd/Race/After.antt =====
-- An exit that comes after startAux has returned.
use runj.Prelude.{suc, ap, refl, ◌+◌, ◌<◌, ◌≤◌, List, ℕ, String, true, ◌≡◌, ◌≢◌, Option, arith}
use runj.Status.{status_stopped}
use runj.Containerd.Process.{ManagedProcess, Exit, set_pid}
use runj.Containerd.Race.{
  Starter, Reaper, unborn, finding, recording, closing_streams, System, Step, Run, rest, then_step,
  holds_lock, found_in, initial, returned, alive, ended, dropped, lock, spawn, not_spawned,
  not_answered, answer, store_pid, store_console, store_state, send_started, store_failure,
  close_failed, exit, look_up, store_stopped, store_exit, send_exited, close_streams,
  close_recorded,
}
use runj.Containerd.Shim.{Event}
use runj.Containerd.Race.Kept.{Kept, reached-Kept, has_stopped, run-Kept}
use runj.Containerd.Race.Order.{Recorded}

module _ (id exec_id : String) (con : Option ℕ) (e : Exit) where
  -- startAux does nothing more, and the process is found.
  record After (s : System) : Type 0 where
    over : s.starter ≡ returned
    not_dropped : s.reaper ≢ dropped
    born : s.reaper ≢ unborn
    stopped : has_stopped s.reaper ≡ true → s.proc.state ≡ status_stopped

  -- How many steps the reaper has left at most.
  left : Reaper → ℕ
  left unborn = 8
  left alive = 7
  left finding = 6
  left Reaper.stopping = 5
  left recording = 4
  left Reaper.sending = 3
  left closing_streams = 2
  left Reaper.closing = 1
  left ended = 0
  left dropped = 0

  abbrev pub steps : {s t : System} → Run id exec_id con e s t → ℕ
  steps (rest s) = 0
  steps (then_step r x) = suc (steps r)

  step-After :
      (m : ManagedProcess) (s t : System)
      → Step id exec_id con e s t
      → Kept id exec_id con e m s
      → After s
      → After t
  unfolding holds_lock found_in set_pid
  step-After m₀ _ _ (lock r m es) k a = ground (arith, a)
  step-After m₀ _ _ (spawn m es) k a = ground (arith, a)
  step-After m₀ _ _ (not_spawned r m es) k a = ground (arith, a)
  step-After m₀ _ _ (not_answered r m es) k a = ground (arith, a)
  step-After m₀ _ _ (answer r m es) k a = ground (arith, a)
  step-After m₀ _ _ (store_pid r m es) k a = ground (arith, a)
  step-After m₀ _ _ (store_console r m es) k a = ground (arith, a)
  step-After m₀ _ _ (store_state r m es) k a = ground (arith, a)
  step-After m₀ _ _ (send_started r m es) k a = ground (arith, a)
  step-After m₀ _ _ (store_failure r m es) k a = ground (arith, a)
  step-After m₀ _ _ (close_failed r m es) k a = ground (arith, a)
  step-After m₀ _ _ (exit s m es) k a = ground (arith, a)
  step-After m₀ _ _ (look_up s m es) k a = ground (arith, a, k)
  step-After m₀ _ _ (store_stopped s m es) k a = ground (arith, a)
  step-After m₀ _ _ (store_exit s m es) k a = ground (arith, a)
  step-After m₀ _ _ (send_exited s m es h) k a = ground (arith, a)
  step-After m₀ _ _ (close_streams s m es) k a = ground (arith, a)
  step-After m₀ _ _ (close_recorded s m es) k a = ground (arith, a)

  run-After :
      (m : ManagedProcess) (s t : System)
      → e.pid ≢ 0
      → Run id exec_id con e s t
      → Kept id exec_id con e m s
      → After s
      → After t
  run-After m _ _ q (rest s) k a = a
  run-After m _ _ q (then_step {s} {t} {u} r x) k a =
      step-After m t u x (run-Kept id exec_id con e m s t q k r) (run-After m s t q r k a)

  step-left : (s t : System) → Step id exec_id con e s t → After s → left t.reaper < left s.reaper
  unfolding found_in left
  step-left _ _ (lock r m es) a = ground (arith, a)
  step-left _ _ (spawn m es) a = ground (arith, a)
  step-left _ _ (not_spawned r m es) a = ground (arith, a)
  step-left _ _ (not_answered r m es) a = ground (arith, a)
  step-left _ _ (answer r m es) a = ground (arith, a)
  step-left _ _ (store_pid r m es) a = ground (arith, a)
  step-left _ _ (store_console r m es) a = ground (arith, a)
  step-left _ _ (store_state r m es) a = ground (arith, a)
  step-left _ _ (send_started r m es) a = ground (arith, a)
  step-left _ _ (store_failure r m es) a = ground (arith, a)
  step-left _ _ (close_failed r m es) a = ground (arith, a)
  step-left _ _ (exit s m es) a = ground (arith, a)
  step-left _ _ (look_up s m es) a = ground (arith, a)
  step-left _ _ (store_stopped s m es) a = ground (arith, a)
  step-left _ _ (store_exit s m es) a = ground (arith, a)
  step-left _ _ (send_exited s m es h) a = ground (arith, a)
  step-left _ _ (close_streams s m es) a = ground (arith, a)
  step-left _ _ (close_recorded s m es) a = ground (arith, a)

  run-left :
      (m : ManagedProcess) (s t : System)
      → e.pid ≢ 0
      → (r : Run id exec_id con e s t) → Kept id exec_id con e m s
      → After s
      → steps r + left t.reaper ≤ left s.reaper
  run-left m _ _ q (rest s) k a = omega arith
  run-left m _ _ q (then_step {s} {t} {u} r x) k a =
      omega (arith, run-left m s t q r k a, step-left t u x (run-After m s t q r k a))

  -- Where the reaper is in a system that cannot go on
  reaper_ends :
      (st : Starter) (r : Reaper) (m : ManagedProcess) (es : List Event)
      → st ≡ returned
      → r ≢ dropped
      → r ≢ unborn
      → ((u : System)
          → Step id exec_id con e (record { starter = st; reaper = r; proc = m; events = es }) u
          → ⊥)
      → r ≡ ended
  unfolding holds_lock
  reaper_ends st unborn m es h d b k = absurd (b refl)
  reaper_ends st alive m es h d b k = absurd (k _ (exit st m es))
  reaper_ends st finding m es h d b k = absurd (k _ (look_up st m es))
  reaper_ends st Reaper.stopping m es h d b k = absurd (k _ (store_stopped st m es))
  reaper_ends st recording m es h d b k = absurd (k _ (store_exit st m es))
  reaper_ends st Reaper.sending m es h d b k = absurd (k _ (send_exited st m es (ap holds_lock h)))
  reaper_ends st closing_streams m es h d b k = absurd (k _ (close_streams st m es))
  reaper_ends st Reaper.closing m es h d b k = absurd (k _ (close_recorded st m es))
  reaper_ends st ended m es h d b k = refl
  reaper_ends st dropped m es h d b k = absurd (d refl)

  -- Where startAux has returned without an error while the process still runs, its exit is not lost:
  -- no run from there has more than seven steps, and one that cannot go on has the exit handled: the
  -- process has been found, its state is stopped, the exit is stored, the channel is closed, and the
  -- start and the exit have been sent in this order.
  pub exit_after_start :
      (m : ManagedProcess) (s t : System)
      → m.pid ≡ 0
      → m.waitblock ≡ true
      → e.pid ≢ 0
      → Run id exec_id con e (initial m) s
      → s.starter ≡ returned
      → s.reaper ≡ alive
      → (u : Run id exec_id con e s t)
      → (steps u ≤ 7)
        × (((v : System) → Step id exec_id con e t v → ⊥)
            → (t.reaper ≡ ended) × Recorded id exec_id con e t × (t.proc.state ≡ status_stopped))
  unfolding left
  exit_after_start m s t p b q r so al u =
      let k = reached-Kept id exec_id con e m s p b q r in
      let a₀ : After s = ground arith in
      let a = run-After m s t q u k a₀ in
      let k' = run-Kept id exec_id con e m s t q k u in
      let f = run-left m s t q u k a₀ in
      let seven : left s.reaper ≡ 7 = ap left al in
      (
        omega (arith, f, seven),
        λ stuck.
            stopped_at k' a
              (reaper_ends t.starter t.reaper t.proc t.events a.over a.not_dropped a.born stuck),
      )
    where
      stopped_at :
          Kept id exec_id con e m t
          → After t
          → t.reaper ≡ ended
          → (t.reaper ≡ ended) × Recorded id exec_id con e t × (t.proc.state ≡ status_stopped)
      stopped_at k' a x = ground (arith, k', a)

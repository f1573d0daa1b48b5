-- ===== src/Containerd/Race/Order.antt =====
-- The order of the events of startAux and of the exit, and what becomes of the exit.
use runj.Prelude.{
  ℕ, ◌++◌, String, Bool, true, false, ◌≡◌, ◌≢◌, ◌⊎◌, inl, inr, refl, Option, List, [], ◌∷◌, arith,
}
use runj.Status.{status_running, status_stopped}
use runj.Containerd.Process.{ManagedProcess, Exit}
use runj.Containerd.Shim.{Event}
use runj.Containerd.Race.{System, Run, initial, started, exited, returned, ended, dropped}
use runj.Containerd.Race.Kept.{reached-Kept, has_sent, is_returned, sent}

module _ (id exec_id : String) (con : Option ℕ) (e : Exit) where
  -- The exit is recorded and published, and those that wait are told.
  abbrev pub Recorded : System → Type 0
  Recorded s =
      (s.proc.exit ≡ e)
      × (s.proc.waitblock ≡ false)
      × (s.events ≡ started id exec_id con e ∷ exited id exec_id con e ∷ [])

  -- Nothing of the exit is kept, and those that wait go on waiting.
  abbrev pub Lost : ManagedProcess → System → Type 0
  Lost m s =
      (s.proc.state ≡ status_running)
      × (s.proc.exit ≡ m.exit)
      × (s.proc.waitblock ≡ true)
      × (s.events ≡ started id exec_id con e ∷ [])

  abbrev pub InOrder : List Event → Type 0
  InOrder es =
      (es ≡ [])
      ⊎ (es ≡ started id exec_id con e ∷ [])
      ⊎ (es ≡ started id exec_id con e ∷ exited id exec_id con e ∷ [])

  in_order :
      (es : List Event) (r x : Bool)
      → es ≡ sent r (started id exec_id con e) ++ sent x (exited id exec_id con e)
      → (x ≡ true → r ≡ true)
      → InOrder es
  in_order es true true k o = inr (inr k)
  in_order es true false k o = inr (inl k)
  in_order es false true k o = cc (o refl)
  in_order es false false k o = inl k

  -- In every interleaving of startAux on a process that Exec has made and of the reaper's handling of
  -- that process's exit, whose pid is not 0: the events that are sent are at every point nothing, the
  -- start, or the start and then the exit. Where startAux has returned without an error and the
  -- exit has been handled, either a process was found, and then the exit is stored, the channel is
  -- closed, both events are sent and the state is stopped or running, or none was found, and then the
  -- state is running, no exit is stored, the channel is open and only the start is sent.
  pub race_lem :
      (m : ManagedProcess) (s : System)
      → m.pid ≡ 0
      → m.waitblock ≡ true
      → e.pid ≢ 0
      → Run id exec_id con e (initial m) s
      → InOrder s.events
        × (s.starter ≡ returned
            → s.reaper ≡ ended
            → Recorded s × ((s.proc.state ≡ status_stopped) ⊎ (s.proc.state ≡ status_running)))
        × (s.starter ≡ returned → s.reaper ≡ dropped → Lost m s)
  race_lem m s p b q r =
      let k = reached-Kept id exec_id con e m s p b q r in
      (
        in_order s.events (is_returned s.starter) (has_sent s.reaper) k.sends k.order,
        λ x y. ground (arith, k),
        λ x y. ground (arith, k),
      )

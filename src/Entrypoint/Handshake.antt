-- ===== src/Entrypoint/Handshake.antt =====
-- The fifo between `runj start` (AwaitFifoOpen of jail/entrypoint.go) and runj-entrypoint (_main of
-- cmd/runj-entrypoint/main.go) as two processes whose steps interleave. The opening of a fifo for
-- reading and that for writing wait for each other; a read to the end waits until the writer has
-- closed, which runj-entrypoint does only where it executes the program (O_CLOEXEC) or exits. No
-- step is a cancellation: the command's context is the Background of cobra's Execute (main of
-- cmd/runj/main.go), whose Done never fires, so that the select of AwaitFifoOpen waits for the open.
pub mod Met
pub mod Ends
use runj.Prelude.{
  suc, ◌≡◌, ◌≢◌, ◌⊎◌, inl, inr, refl, true, false, ℕ, ◌+◌, ◌<◌, Bool, arith, true≢false, sym,
}

pub data Entrypoint : Type 0 where
  -- blocked in the open; about to write; entering the jail; the program runs; exited
  opening writing entering running exited : Entrypoint

pub data Starter : Type 0 where
  -- blocked in the open; reading; removing the fifo; the two ends
  opening reading removing started failed : Starter

pub record System : Type 0 where
  pub entrypoint : Entrypoint
  pub starter : Starter
  -- whether the byte has been written, and whether the fifo is there
  pub written : Bool
  pub fifo : Bool

-- Both wait at the fifo.
abbrev pub initial : System
initial = record { entrypoint = opening; starter = opening; written = false; fifo = true }

-- The writer has closed.
abbrev pub closed : Entrypoint → Bool
closed running = true
closed exited = true
closed _ = false

pub data Step : System → System → Type 0 where
  meet :
      (d : Bool)
      → Step
          (record { entrypoint = opening; starter = opening; written = d; fifo = true })
          (record { entrypoint = writing; starter = reading; written = d; fifo = true })
  -- the open fails, or runj delete ends the process that waits
  not_opened :
      (s : Starter) (d f : Bool)
      → Step
          (record { entrypoint = opening; starter = s; written = d; fifo = f })
          (record { entrypoint = exited; starter = s; written = d; fifo = f })
  write :
      (s : Starter) (d f : Bool)
      → Step
          (record { entrypoint = writing; starter = s; written = d; fifo = f })
          (record { entrypoint = entering; starter = s; written = true; fifo = f })
  not_written :
      (s : Starter) (d f : Bool)
      → Step
          (record { entrypoint = writing; starter = s; written = d; fifo = f })
          (record { entrypoint = exited; starter = s; written = d; fifo = f })
  execute :
      (s : Starter) (d f : Bool)
      → Step
          (record { entrypoint = entering; starter = s; written = d; fifo = f })
          (record { entrypoint = running; starter = s; written = d; fifo = f })
  not_executed :
      (s : Starter) (d f : Bool)
      → Step
          (record { entrypoint = entering; starter = s; written = d; fifo = f })
          (record { entrypoint = exited; starter = s; written = d; fifo = f })
  read_byte :
      (e : Entrypoint) (f : Bool)
      → closed e ≡ true
      → Step
          (record { entrypoint = e; starter = reading; written = true; fifo = f })
          (record { entrypoint = e; starter = removing; written = true; fifo = f })
  read_nothing :
      (e : Entrypoint) (f : Bool)
      → closed e ≡ true
      → Step
          (record { entrypoint = e; starter = reading; written = false; fifo = f })
          (record { entrypoint = e; starter = failed; written = false; fifo = f })
  not_read :
      (e : Entrypoint) (d f : Bool)
      → Step
          (record { entrypoint = e; starter = reading; written = d; fifo = f })
          (record { entrypoint = e; starter = failed; written = d; fifo = f })
  remove :
      (e : Entrypoint) (d f : Bool)
      → Step
          (record { entrypoint = e; starter = removing; written = d; fifo = f })
          (record { entrypoint = e; starter = started; written = d; fifo = false })
  not_removed :
      (e : Entrypoint) (d f : Bool)
      → Step
          (record { entrypoint = e; starter = removing; written = d; fifo = f })
          (record { entrypoint = e; starter = failed; written = d; fifo = f })

pub data Reachable : System → Type 0 where
  start : Reachable initial
  next : {s t : System} → Reachable s → Step s t → Reachable t

pub data Run : System → System → ℕ → Type 0 where
  rest : (s : System) → Run s s 0
  then_step : {s t u : System} {n : ℕ} → Step s t → Run t u n → Run s u (suc n)

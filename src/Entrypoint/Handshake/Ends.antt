-- ===== src/Entrypoint/Handshake/Ends.antt =====
-- The two processes at the fifo come to an end.
use runj.Prelude.{◌≡◌, refl, true, false, ℕ, ◌+◌, ◌<◌, ◌≤◌, Bool, arith}
use runj.Entrypoint.Handshake.Met.{Met, Reachable-Met}
use runj.Prelude.{◌⊎◌, inl, inr, subst, sym}
use runj.Entrypoint.Handshake.{
  Reachable, start, next, Entrypoint, Starter, System, Step, Run, initial, closed, opening, writing,
  entering, running, exited, reading, removing, started, failed, meet, not_opened, write,
  not_written, execute, not_executed, read_byte, read_nothing, not_read, remove, not_removed, rest,
  then_step,
}

-- How many steps each process has left at most.
abbrev entrypoint_left : Entrypoint → ℕ
entrypoint_left opening = 3
entrypoint_left writing = 2
entrypoint_left entering = 1
entrypoint_left _ = 0

abbrev starter_left : Starter → ℕ
starter_left opening = 3
starter_left reading = 2
starter_left removing = 1
starter_left _ = 0

abbrev left : System → ℕ
left s = entrypoint_left s.entrypoint + starter_left s.starter

step-left : (s t : System) → Step s t → left t < left s
step-left _ _ (meet d) = omega arith
step-left _ _ (not_opened s d f) = omega arith
step-left _ _ (write s d f) = omega arith
step-left _ _ (not_written s d f) = omega arith
step-left _ _ (execute s d f) = omega arith
step-left _ _ (not_executed s d f) = omega arith
step-left _ _ (read_byte e f c) = omega arith
step-left _ _ (read_nothing e f c) = omega arith
step-left _ _ (not_read e d f) = omega arith
step-left _ _ (remove e d f) = omega arith
step-left _ _ (not_removed e d f) = omega arith

run-left : (s t : System) (n : ℕ) → Run s t n → n + left t ≤ left s
run-left _ _ _ (rest s) = omega arith
run-left _ _ _ (then_step {s} {t} {u} {n} x r) = omega (arith, step-left s t x, run-left t u n r)

run-Reachable : (s t : System) (n : ℕ) → Reachable s → Run s t n → Reachable t
run-Reachable _ _ _ h (rest s) = h
run-Reachable _ _ _ h (then_step {s} {t} {u} {n} x r) = run-Reachable t u n (next h x) r

abbrev pub over : Starter → Bool
over started = true
over failed = true
over _ = false

abbrev Stuck : System → Type 0
Stuck s = (u : System) → Step s u → ⊥

entrypoint_ends :
    (e : Entrypoint) (s : Starter) (d f : Bool)
    → Stuck (record { entrypoint = e; starter = s; written = d; fifo = f })
    → closed e ≡ true
entrypoint_ends opening s d f k = absurd (k _ (not_opened s d f))
entrypoint_ends writing s d f k = absurd (k _ (write s d f))
entrypoint_ends entering s d f k = absurd (k _ (execute s d f))
entrypoint_ends running s d f k = refl
entrypoint_ends exited s d f k = refl

-- Start waits in its open for good where the entrypoint has exited.
abbrev pub AtEnd : Starter → Entrypoint → Type 0
AtEnd s e = (over s ≡ true) ⊎ ((s ≡ opening) × (e ≡ exited))

starter_ends :
    (e : Entrypoint) (s : Starter) (d f : Bool)
    → Met s e d f
    → Stuck (record { entrypoint = e; starter = s; written = d; fifo = f })
    → AtEnd s e
starter_ends e opening d f (inl o) k = absurd (
    k _ (
      subst
        (λ x.
          Step (record { entrypoint = x; starter = opening; written = d; fifo = f })
            (record { entrypoint = exited; starter = opening; written = d; fifo = f }))
        (sym o) (not_opened opening d f)))
starter_ends e opening d f (inr o) k = inr (refl, o)
starter_ends e reading d f m k = absurd (k _ (not_read e d f))
starter_ends e removing d f m k = absurd (k _ (remove e d f))
starter_ends e started d f m k = inl refl
starter_ends e failed d f m k = inl refl

-- No run of start and the entrypoint from the state in which both wait at the fifo has more than
-- six steps. One that cannot go on has the program running or the entrypoint exited, and start
-- over, in success or failure, or, with the entrypoint exited, still in its open of the fifo.
pub run_ends :
    (t : System) (n : ℕ)
    → Run initial t n
    → (n ≤ 6)
      × (((u : System) → Step t u → ⊥)
          → (closed t.entrypoint ≡ true) × AtEnd t.starter t.entrypoint)
run_ends t n r = (
  omega (arith, run-left initial t n r),
  λ k. (
    entrypoint_ends t.entrypoint t.starter t.written t.fifo k,
    starter_ends t.entrypoint t.starter t.written t.fifo
        (Reachable-Met t (run-Reachable initial t n start r)) k,
  ),
)

-- Nothing happens once the entrypoint has exited before start has come.
no_step : (s t : System) → Step s t → s.starter ≡ opening → s.entrypoint ≡ exited → ⊥
no_step _ _ (meet d) h k = cc
no_step _ _ (not_opened s d f) h k = cc
no_step _ _ (write s d f) h k = cc
no_step _ _ (not_written s d f) h k = cc
no_step _ _ (execute s d f) h k = cc
no_step _ _ (not_executed s d f) h k = cc
no_step _ _ (read_byte e f c) h k = cc
no_step _ _ (read_nothing e f c) h k = cc
no_step _ _ (not_read e d f) h k = cc
no_step _ _ (remove e d f) h k = cc
no_step _ _ (not_removed e d f) h k = cc

-- Start can wait for good: the process at the fifo is ended before start has come.
pub start_waits :
    (t : System) × Run initial t 1
    × (t.starter ≡ opening)
    × (t.entrypoint ≡ exited)
    × ((u : System) → Step t u → ⊥)
start_waits =
    let t : System = record {
      entrypoint = exited;
      starter = opening;
      written = false;
      fifo = true;
    } in
    (
      t,
      then_step (not_opened opening false true) (rest t),
      refl,
      refl,
      λ u x. no_step t u x refl refl,
    )

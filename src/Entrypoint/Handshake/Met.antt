-- ===== src/Entrypoint/Handshake/Met.antt =====
-- The program of the container runs only once `runj start` has come.
use runj.Prelude.{subst, ◌≡◌, ◌≢◌, ◌⊎◌, inl, inr, refl, true, false, Bool, true≢false, sym, ap, ◌∙◌}
use runj.Entrypoint.Handshake.{
  Entrypoint, Starter, System, Step, Reachable, closed, opening, writing, entering, running, exited,
  reading, removing, started, failed, meet, not_opened, write, not_written, execute, not_executed,
  read_byte, read_nothing, not_read, remove, not_removed, start, next,
}

-- What holds between the two processes.
abbrev pub Met : Starter → Entrypoint → Bool → Bool → Type 0
Met opening e d f = (e ≡ opening) ⊎ (e ≡ exited)
Met reading e d f = e ≢ opening
Met failed e d f = e ≢ opening
Met removing e d f = (closed e ≡ true) × (d ≡ true)
Met started e d f = (closed e ≡ true) × (d ≡ true) × (f ≡ false)

-- The entrypoint goes on between its open and its end.
goes_on :
    (s : Starter) (e e' : Entrypoint) (d d' f : Bool)
    → closed e ≡ false
    → e ≢ opening
    → e' ≢ opening
    → Met s e d f
    → Met s e' d' f
goes_on opening e e' d d' f c n n' (inl o) = absurd (n o)
goes_on opening e e' d d' f c n n' (inr o) = absurd (true≢false (sym (ap closed o) ∙ c))
goes_on reading e e' d d' f c n n' m = n'
goes_on failed e e' d d' f c n n' m = n'
goes_on removing e e' d d' f c n n' m = absurd (true≢false (sym m.0 ∙ c))
goes_on started e e' d d' f c n n' m = absurd (true≢false (sym m.0 ∙ c))

gives_up : (s : Starter) (d f : Bool) → Met s opening d f → Met s exited d f
gives_up opening d f m = inr refl
gives_up reading d f m = absurd (m refl)
gives_up failed d f m = absurd (m refl)
gives_up removing d f m = absurd (true≢false (sym m.0))
gives_up started d f m = absurd (true≢false (sym m.0))

closed_not_opening : (e : Entrypoint) → closed e ≡ true → e ≢ opening
closed_not_opening e c o = true≢false (sym c ∙ ap closed o)

step-Met :
    (s t : System)
    → Step s t
    → Met s.starter s.entrypoint s.written s.fifo
    → Met t.starter t.entrypoint t.written t.fifo
step-Met _ _ (meet d) m = λ e. cc
step-Met _ _ (not_opened s d f) m = gives_up s d f m
step-Met _ _ (write s d f) m = goes_on s writing entering d true f refl (λ e. cc) (λ e. cc) m
step-Met _ _ (not_written s d f) m = goes_on s writing exited d d f refl (λ e. cc) (λ e. cc) m
step-Met _ _ (execute s d f) m = goes_on s entering running d d f refl (λ e. cc) (λ e. cc) m
step-Met _ _ (not_executed s d f) m = goes_on s entering exited d d f refl (λ e. cc) (λ e. cc) m
step-Met _ _ (read_byte e f c) m = (c, refl)
step-Met _ _ (read_nothing e f c) m = m
step-Met _ _ (not_read e d f) m = m
step-Met _ _ (remove e d f) m = (m.0, m.1, refl)
step-Met _ _ (not_removed e d f) m = closed_not_opening e m.0

pub Reachable-Met : (s : System) → Reachable s → Met s.starter s.entrypoint s.written s.fifo
Reachable-Met _ start = inl refl
Reachable-Met _ (next {s} {t} r x) = step-Met s t x (Reachable-Met s r)

-- In every interleaving of `runj start` and runj-entrypoint: where start reports success, the
-- entrypoint has written to the fifo, the fifo is gone, and the program runs or the entrypoint
-- has exited; where start still waits in its open of the fifo, the program does not run.
pub handshake_lem :
    (s : System)
    → Reachable s
    → (s.starter ≡ started → (s.written ≡ true) × (s.fifo ≡ false) × (closed s.entrypoint ≡ true))
      × (s.starter ≡ opening → s.entrypoint ≢ running)
handshake_lem s r =
    let m = Reachable-Met s r in
    (
      succeeds s.starter s.entrypoint s.written s.fifo m,
      waits s.starter s.entrypoint s.written s.fifo m,
    )
  where
    succeeds :
        (x : Starter) (e : Entrypoint) (d f : Bool)
        → Met x e d f
        → x ≡ started
        → (d ≡ true) × (f ≡ false) × (closed e ≡ true)
    succeeds x e d f m h = let (c, w, g) = subst (λ y. Met y e d f) h m in (w, g, c)

    still : (e : Entrypoint) → (e ≡ opening) ⊎ (e ≡ exited) → e ≢ running
    still e (inl o) n = cc
    still e (inr o) n = cc

    waits : (x : Starter) (e : Entrypoint) (d f : Bool) → Met x e d f → x ≡ opening → e ≢ running
    waits x e d f m h = still e (subst (λ y. Met y e d f) h m)

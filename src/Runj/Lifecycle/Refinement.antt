-- ===== src/Runj/Lifecycle/Refinement.antt =====
-- The commands implement the life of a container.
use runj.Runj.Create.{Surroundings}
use runj.Prelude.{
  String, ◌≡◌, true≢false, refl, sym, ap, subst, ◌∙◌, Option, none, some, Bool, true, false, inl,
  inr, Bool-cases, Result-cases,
}
use runj.Status.{running≢created, running≢creating, status_running}
use runj.Runj.Store.{Command, done, ◌>>=◌, State, World}
use runj.Runj.Commands
use runj.Runj.Create.Stages
use runj.Runj.Lifecycle.{
  Surroundings, Call, create, start, state, delete, kill, perform, phase, Step, stay, created,
  creating, started, stopped, deleted, Unstarted, Sound,
}
use runj.Runj.Lifecycle.Moves.{Quiet, Gone, Stopped, Written, state_moves, kill_moves, start_moves}
use runj.Runj.Lifecycle.Deleting.{delete_moves}
use runj.Runj.Lifecycle.Making.{create-exists, create-made}

pub falls : (x y : Bool) → (x ≡ true → y ≡ true) → y ≡ false → x ≡ false
falls true y i e = absurd (true≢false (sym (i refl) ∙ e))
falls false y i e = refl

not_started : (s : State) → s.status ≡ status_running → Unstarted (some s) → ⊥
not_started s r (inl e) = running≢created (sym r ∙ e)
not_started s r (inr e) = running≢creating (sym r ∙ e)

-- The world after a command, and what it has done to the container.
abbrev Refines : World → World → Type 0
Refines w v = Step (phase w.state) (phase v.state) × Sound v

Quiet-Refines : (w v : World) → Sound w → Quiet w v → Refines w v
Quiet-Refines w v s (f, st, c, x, fi) = (
  subst (λ o. Step (phase w.state) (phase o)) (sym st) (stay (phase w.state)),
  record {
    absent = λ n.
        let (a, b, d, e) = s.absent (sym f ∙ n) in (st ∙ a, c ∙ b, x ∙ d, falls v.fifo w.fifo fi e);
    waiting = λ n. subst (λ o. Unstarted o) (sym st) (s.waiting (fi n));
  },
)

Stopped-Refines : (w v : World) → Sound w → Stopped w v → Refines w v
Stopped-Refines w v sound (s, t, was, now, (l, f, st, fi)) = (
  subst (λ o. Step o (phase v.state)) (sym (ap phase l ∙ ap some was))
      (subst (λ o. Step (some status_running) o) (sym (ap phase st ∙ ap some now)) stopped),
  record {
    absent = λ n. absurd (true≢false (sym f ∙ n));
    waiting = λ n. absurd (not_started s was (subst (λ o. Unstarted o) l (sound.waiting (fi n))));
  },
)

started-Refines :
    (w v : World) (s : State)
    → Sound w
    → w.fifo ≡ true
    → v.fifo ≡ false
    → Written w v s (record s { status = status_running })
    → Refines w v
started-Refines w v s sound there gone (l, f, st, fi) = (
  subst (λ o. Step o (phase v.state)) (sym (ap phase l))
      (subst (λ o. Step (some s.status) o) (sym (ap phase st))
        (started s.status (subst (λ o. Unstarted o) l (sound.waiting there)))),
  record {
    absent = λ n. absurd (true≢false (sym f ∙ n));
    waiting = λ n. absurd (true≢false (sym n ∙ gone));
  },
)

Gone-Refines : (w v : World) → Sound w → Gone v → Refines w v
Gone-Refines w v sound (st, c, x, fi) = (
  subst (λ o. Step (phase w.state) (phase o)) (sym st) (to_none w.state),
  record { absent = λ n. (st, c, x, fi); waiting = λ n. absurd (true≢false (sym n ∙ fi)) },
)
  where
    to_none : (o : Option State) → Step (phase o) none
    to_none none = stay none
    to_none (some s) = deleted s.status

from_none : (o : Option State) → Unstarted o → Step none (phase o)
from_none none u = stay none
from_none (some s) (inl e) = subst (λ p. Step none (some p)) (sym e) created
from_none (some s) (inr e) = subst (λ p. Step none (some p)) (sym e) creating

create-Refines :
    (h : Surroundings) (id socket pid_file bundle : String) (w : World)
    → Sound w
    → Refines w (Stages.create h id socket pid_file bundle w).1
create-Refines h id socket pid_file bundle w sound =
    let v : World = (Stages.create h id socket pid_file bundle w).1 in
    elim (Bool-cases w.state_file) [
      | inl there ↦
          let same : v ≡ w = create-exists h id socket pid_file bundle w there in
          subst (λ u. Refines w u) (sym same) (stay (phase w.state), sound)
      | inr absent ↦
          let (a, b, c, d) = sound.absent absent in
          let (u, rest) = create-made h id socket pid_file bundle w absent (a, b, c, d) in
          (
            subst (λ o. Step (phase o) (phase v.state)) (sym a) (from_none v.state u),
            record { absent = rest; waiting = λ n. u },
          )
    ]

pub drops {ℓ} :
    {A : Type ℓ} (m : Command A) (w : World) → ((m >>= λ _. done (tt {0})) w).1 ≡ (m w).1
drops m w = elim (Result-cases (m w).0) [ inl (x, r) ↦ rw r refl | inr (e, r) ↦ rw r refl ]

-- Each command on a sound container, whatever it is answered and whether it succeeds or fails,
-- takes the status in state.json by a step of the container's life, and leaves the container
-- sound. By these steps a container starts only from `created` or `creating`, only a running one
-- stops, and one that is there is not created again; a sound container whose fifo waits has not
-- been started, and one without state.json has no other file.
pub perform-refines :
    (c : Call) (w : World)
    → Sound w
    → Step (phase w.state) (phase (perform c w).1.state) × Sound (perform c w).1
unfolding perform
perform-refines (create h id socket pid_file bundle) w s =
    create-Refines h id socket pid_file bundle w s
perform-refines (start a) w s = elim (start_moves a w) [
  | inl q ↦ Quiet-Refines w (Commands.start a w).1 s q
  | inr (t, there, gone, wrote) ↦ started-Refines w (Commands.start a w).1 t s there gone wrote
]
perform-refines (state a) w s =
    let v : World = (Commands.state a w).1 in
    subst (λ u. Refines w u) (sym (drops (Commands.state a) w))
      (elim (state_moves a w) [ inl q ↦ Quiet-Refines w v s q | inr t ↦ Stopped-Refines w v s t ])
perform-refines (delete a) w s = elim (delete_moves a w) [
  | inl q ↦ Quiet-Refines w (Commands.delete a w).1 s q
  | inr g ↦ Gone-Refines w (Commands.delete a w).1 s g
]
perform-refines (kill a signal all pid) w s = elim (kill_moves a signal all pid w) [
  | inl q ↦ Quiet-Refines w (Commands.kill a signal all pid w).1 s q
  | inr t ↦ Stopped-Refines w (Commands.kill a signal all pid w).1 s t
]

-- ===== src/Runj/Lifecycle/Once.antt =====
-- Histories of commands on a container: what is always so, and that a container starts once.
use runj.Prelude.{
  ◌≡◌, ◌≢◌, true≢false, refl, sym, subst, ◌∙◌, none, List, [], ◌∷◌, Bool, true, false, inl, inr,
  Bool-cases, ok, All, arith,
}
use runj.Runj.Store.{World, load, save}
use runj.Runj.Commands
use runj.Runj.Lifecycle.{Call, create, start, state, delete, kill, perform, perform_all, Sound}
use runj.Runj.Lifecycle.Moves.{Quiet, Stopped, state_moves, kill_moves, start_moves}
use runj.Runj.Lifecycle.Making.{create-exists}
use runj.Runj.Lifecycle.Refinement.{perform-refines, drops, falls}

-- No container has been made.
abbrev pub empty_world : World
empty_world = record {
  state_file = false;
  state = none;
  config = none;
  extension = none;
  fifo = false;
  effects = [];
}

-- Whatever commands have been run, each with any answers: a container without state.json has no
-- other file, and one with a fifo that waits is not started.
pub perform_all-Sound : (cs : List Call) (w : World) → Sound w → Sound (perform_all cs w)
unfolding perform_all
perform_all-Sound [] w s = s
perform_all-Sound (c ∷ cs) w s = perform_all-Sound cs (perform c w).1 (perform-refines c w s).1

pub empty-Sound : Sound empty_world
empty-Sound = record {
  absent = λ n. (refl, refl, refl, refl);
  waiting = λ n. absurd (true≢false (sym n));
}

-- The container is there, and its fifo is gone.
abbrev Spent : World → Type 0
Spent w = (w.state_file ≡ true) × (w.fifo ≡ false)

Quiet-Spent : (w v : World) → Spent w → Quiet w v → Spent v
Quiet-Spent w v (there, gone) (f, st, c, x, fi) = (f ∙ there, falls v.fifo w.fifo fi gone)

Stopped-Spent : (w v : World) → Spent w → Stopped w v → Spent v
Stopped-Spent w v (there, gone) (s, t, p, q, (l, f, st, fi)) = (f, falls v.fifo w.fifo fi gone)

abbrev pub is_delete : Call → Bool
is_delete (delete a) = true
is_delete _ = false

perform-Spent : (c : Call) (w : World) → is_delete c ≡ false → Spent w → Spent (perform c w).1
unfolding perform
perform-Spent (create h id socket pid_file bundle) w k s =
    rw (create-exists h id socket pid_file bundle w s.0) s
perform-Spent (start a) w k s = elim (start_moves a w) [
  | inl q ↦ Quiet-Spent w (Commands.start a w).1 s q
  | inr (t, there, gone, (l, f, st, fi)) ↦ (f, gone)
]
perform-Spent (state a) w k s =
    let v : World = (Commands.state a w).1 in
    subst (λ u. Spent u) (sym (drops (Commands.state a) w))
      (elim (state_moves a w) [ inl q ↦ Quiet-Spent w v s q | inr t ↦ Stopped-Spent w v s t ])
perform-Spent (delete a) w k s = absurd (true≢false k)
perform-Spent (kill a signal all pid) w k s = elim (kill_moves a signal all pid w) [
  | inl q ↦ Quiet-Spent w (Commands.kill a signal all pid w).1 s q
  | inr t ↦ Stopped-Spent w (Commands.kill a signal all pid w).1 s t
]

perform_all-Spent :
    (cs : List Call) (w : World)
    → All (λ c. is_delete c ≡ false) cs
    → Spent w
    → Spent (perform_all cs w)
unfolding perform_all
perform_all-Spent [] w k s = s
perform_all-Spent (c ∷ cs) w (k, ks) s =
    perform_all-Spent cs (perform c w).1 ks (perform-Spent c w k s)

start_missing : (a : Commands.Answers) (w : World) → w.state ≡ none → (Commands.start a w).0 ≢ ok tt
unfolding Commands.start load Commands.load_config
start_missing a w missing r = ground arith

start-Spent :
    (a : Commands.Answers) (w : World)
    → Sound w
    → (Commands.start a w).0 ≡ ok tt
    → Spent (Commands.start a w).1
unfolding Commands.start load save Commands.load_config Commands.await_fifo
start-Spent a w s r =
    let file : (Commands.start a w).1.state_file ≡ true = elim (Bool-cases w.state_file) [
      | inr absent ↦
          let (missing, c, x, fi) = s.absent absent in absurd (start_missing a w missing r)
      | inl there ↦ elim (start_moves a w) [
        | inl (f, st, c, x, fi) ↦ f ∙ there
        | inr (t, x, y, (l, f, st, fi)) ↦ f
      ]
    ] in
    (file, ground arith)

start_fails : (a : Commands.Answers) (w : World) → w.fifo ≡ false → (Commands.start a w).0 ≢ ok tt
unfolding Commands.start load save Commands.load_config Commands.await_fifo
start_fails a w gone = ground arith

-- A container starts at most once: after a start that succeeds, no other one does, whatever other
-- commands but delete are run between the two.
pub start-once :
    (a b : Commands.Answers) (cs : List Call) (w : World)
    → Sound w
    → (Commands.start a w).0 ≡ ok tt
    → All (λ c. is_delete c ≡ false) cs
    → (Commands.start b (perform_all cs (Commands.start a w).1)).0 ≢ ok tt
start-once a b cs w s r keep =
    let (there, gone) = perform_all-Spent cs (Commands.start a w).1 keep (start-Spent a w s r) in
    start_fails b (perform_all cs (Commands.start a w).1) gone

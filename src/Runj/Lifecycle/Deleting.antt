-- ===== src/Runj/Lifecycle/Deleting.antt =====
-- How the delete command changes the files of a container.
use runj.Prelude.{
  if◌then◌else◌, ◌==ℕ◌, refl, Option, none, Bool, false, ◌⊎◌, inl, inr, Bool-cases, not, sym, ◌∙◌,
}
use runj.Jail.Ps.{is_running}
use runj.Runj.Store.{
  no_config, terminate, done, remove_jail, unmount_all, not_stopped, CommandError, Effect, answered,
  no_state, Command, output, fails_if, effect, jail_failed, ◌>>=◌, ◌>>◌, State, World, load,
}
use runj.Runj.Commands
use runj.Runj.Lifecycle.Moves.{Quiet, Gone}
use runj.Runj.Commands.Files.{run_hooks_files}
use runj.Runj.Store.Laws.{Along, Along-bind, Along-answered, Along-fails_if}
use runj.Oci

module _ (a : Commands.Answers) where
  Deletes : World → World → Type 0
  Deletes w v = Quiet w v ⊎ Gone v

  Deletes-start : (w : World) → Deletes w w
  unfolding Deletes
  Deletes-start w = inl (refl, refl, refl, refl, λ f. f)

  Deletes-trans : (u v w : World) → Deletes u v → Deletes v w → Deletes u w
  unfolding Deletes
  Deletes-trans u v w d (inr gone) = inr gone
  Deletes-trans u v w (inl (a, b, c, d, e)) (inl (p, q, r, s, t)) =
      inl (p ∙ a, q ∙ b, r ∙ c, s ∙ d, λ f. e (t f))
  Deletes-trans u v w (inr (a, b, c, d)) (inl (p, q, r, s, t)) =
      inr (q ∙ a, r ∙ b, s ∙ c, elim (Bool-cases w.fifo) [ inl f ↦ sym (cc (t f, d)) | inr f ↦ f ])

  Deletes-fails_if : (b : Bool) (e : CommandError) → Along Deletes (fails_if b e)
  Deletes-fails_if b e = Along-fails_if Deletes Deletes-start b e

  Deletes-answered : {A : Type 0} (o : Option A) (e : CommandError) → Along Deletes (answered o e)
  Deletes-answered o e = Along-answered Deletes Deletes-start o e

  Deletes-effect : (x : Effect) → Along Deletes (effect x)
  unfolding Deletes
  Deletes-effect x w = inl (refl, refl, refl, refl, λ f. f)

  Deletes-finish :
      (s : State) (config : Oci.Spec) → Along Deletes (Commands.finish_delete a s config)
  unfolding Deletes Commands.finish_delete Commands.remove_state
  Deletes-finish s config w = elim (Bool-cases a.remove_state) [
    | inr stays ↦ inl (rw stays (refl, refl, refl, refl, λ f. f))
    | inl removed ↦
        let cleared : World = record w {
          state_file = false;
          state = none;
          config = none;
          extension = none;
          fifo = false;
        } in
        let out = record (output a.version s) { annotations = config.annotations } in
        let (p, q, r, t, u) = run_hooks_files a (Commands.poststop a config.hooks) out cleared in
        inr (rw removed (q, r, t, u))
  ]

  module _ {A B : Type 0} where
    then_deletes :
        (m : Command A) (f : A → Command B)
        → Along Deletes m
        → ((x : A) → Along Deletes (f x))
        → Along Deletes (m >>= f)
    then_deletes m f p q = Along-bind Deletes Deletes-trans m f p q

  Deletes-load_config : Along Deletes (Commands.load_config a)
  unfolding Commands.load_config
  Deletes-load_config w = Deletes-answered (Commands.config_of a w.config w.extension) no_config w

  -- A check, or an effect, before what follows.
  checks :
      (b : Bool) (e : CommandError) (n : Command (Unit {0}))
      → Along Deletes n
      → Along Deletes (fails_if b e >> n)
  checks b e n d = then_deletes (fails_if b e) (λ _. n) (Deletes-fails_if b e) (λ _. d)

  does : (x : Effect) (n : Command (Unit {0})) → Along Deletes n → Along Deletes (effect x >> n)
  does x n d = then_deletes (effect x) (λ _. n) (Deletes-effect x) (λ _. d)

  Deletes-signal :
      (s : State) → Along Deletes (if s.pid ==ℕ 0 then done tt else effect (terminate s.pid))
  Deletes-signal s w = elim (Bool-cases (s.pid ==ℕ 0)) [
    | inl idle ↦ rw idle (Deletes-start w)
    | inr waits ↦ rw waits (Deletes-effect (terminate s.pid) w)
  ]

  Deletes-clean_up : (s : State) → Along Deletes (Commands.clean_up_entrypoint a s)
  unfolding Commands.clean_up_entrypoint
  Deletes-clean_up s =
      checks (not a.cleanup_entrypoint) jail_failed
        (if s.pid ==ℕ 0 then done tt else effect (terminate s.pid)) (Deletes-signal s)

  Deletes-delete : Along Deletes (Commands.delete a)
  unfolding Commands.delete load
  Deletes-delete =
      let finishes : State → Oci.Spec → Command (Unit {0}) =
        λ s config. (do fails_if (not a.unmount) jail_failed; Commands.finish_delete a s config) in
      let unmounts : State → Oci.Spec → Command (Unit {0}) =
        λ s config. effect unmount_all >> finishes s config in
      let configured : State → Command (Unit {0}) = λ s. Commands.load_config a >>= unmounts s in
      let removed : State → Command (Unit {0}) =
        λ s. fails_if (not a.remove_jail) jail_failed >> configured s in
      let found : State → Command (Unit {0}) =
        λ s. fails_if (not a.find_jail) jail_failed >> (effect remove_jail >> removed s) in
      let removes : State → Command (Unit {0}) = λ s. Commands.clean_up_entrypoint a s >> found s in
      let unmounts-Deletes : (s : State) (config : Oci.Spec) → Along Deletes (unmounts s config) =
        λ s config. does unmount_all (finishes s config) (
          checks (not a.unmount) jail_failed (Commands.finish_delete a s config)
            (Deletes-finish s config)) in
      let removes-Deletes : (s : State) → Along Deletes (removes s) = λ s.
        then_deletes (Commands.clean_up_entrypoint a s) (λ _. found s) (Deletes-clean_up s)
          (λ _.
            (checks (not a.find_jail) jail_failed (effect remove_jail >> removed s) (
              does remove_jail (removed s) (
                checks (not a.remove_jail) jail_failed (configured s) (
                  then_deletes (Commands.load_config a) (unmounts s) Deletes-load_config
                    (unmounts-Deletes s)))))) in
      let checked : State → Command (Unit {0}) = λ s. (do
        running ← answered (is_running a.ps 0) jail_failed
        fails_if running not_stopped
        removes s) in
      then_deletes load checked (λ w. Deletes-answered w.state no_state w)
        (λ s.
          then_deletes (answered (is_running a.ps 0) jail_failed)
            (λ running. fails_if running not_stopped >> removes s)
            (Deletes-answered (is_running a.ps 0) jail_failed)
            (λ running. checks running not_stopped (removes s) (removes-Deletes s)))

  pub delete_moves : (w : World) → Quiet w (Commands.delete a w).1 ⊎ Gone (Commands.delete a w).1
  unfolding Deletes
  delete_moves w = Deletes-delete w

-- ===== src/Runj/Lifecycle/Making.antt =====
-- How the create command changes the files of a container.
use runj.Prelude.{
  true≢false, subst, ◌≡◌, refl, Option, none, some, String, Bool, true, false, ◌⊎◌, inl, inr,
  Bool-cases, Result-cases, arith, ok, ◌∙◌, sym,
}
use runj.Status.{status_created}
use runj.Runj.Store.{Disk, State, World, Command, save}
use runj.Runj.Commands.{remove_state}
use runj.Runj.Create.{Surroundings, create_state, initialize, new_state}
use runj.Runj.Create.Kept.{configure_state}
use runj.Runj.Create.Stages
use runj.Runj.Lifecycle.{Unstarted}

module _ (h : Surroundings) (id socket pid_file bundle : String) where
  -- Where the container is there, its files are not touched.
  pub create-exists :
      (w : World) → w.state_file ≡ true → (Stages.create h id socket pid_file bundle w).1 ≡ w
  unfolding Stages.create create_state initialize
  create-exists w there = elim (Bool-cases h.make_dir) [
    | inl made ↦ rw (made, there) refl
    | inr unmade ↦ rw unmade refl
  ]

  -- The state is not that of a started container, and without state.json nothing is left.
  Made : World → Type 0
  Made v =
      Unstarted v.state
      × (v.state_file ≡ false
          → (v.state ≡ none) × (v.config ≡ none) × (v.extension ≡ none) × (v.fifo ≡ false))

  save-Made :
      (d : Disk) (s : State) (w : World)
      → Unstarted w.state
      → w.state_file ≡ true
      → Made (save d (record s { status = status_created }) w).1
  unfolding Made save
  save-Made d s w u there = elim (Bool-cases d.create_temp) [
    | inr full ↦ rw full (u, λ n. absurd (true≢false (sym there ∙ n)))
    | inl temp ↦ elim (Bool-cases d.write) [
      | inr full ↦ rw (temp, full) (u, λ n. absurd (true≢false (sym there ∙ n)))
      | inl written ↦ elim (Bool-cases d.rename) [
        | inr kept ↦ rw (temp, written, kept) (u, λ n. absurd (true≢false (sym there ∙ n)))
        | inl renamed ↦ rw (temp, written, renamed) (inl refl, λ n. absurd (true≢false n))
      ]
    ]
  ]

  close-Made :
      (body : Command (State × Bool)) (w : World)
      → Unstarted (body w).1.state
      → ((body w).1.state_file ≡ true)
      → Made (Stages.close h id socket pid_file body w).1
  unfolding Made Stages.close remove_state
  close-Made body w u there = elim (Result-cases (body w).0) [
    | inr (e, f) ↦ elim (Bool-cases h.answers.remove_state) [
      | inl removed ↦ rw (Stages.close, f, removed) (tt, λ _. (refl, refl, refl, refl))
      | inr stays ↦ rw (Stages.close, f, stays) (u, λ n. absurd (true≢false (sym there ∙ n)))
    ]
    | inl ((s, true), f) ↦ rw (Stages.close, f) (save-Made h.last_save s (body w).1 u there)
    | inl ((s, false), f) ↦ rw (Stages.close, f) (save-Made h.last_save s (body w).1 u there)
  ]

  create_state_files :
      (w : World)
      → w.state ≡ none
      → w.state_file ≡ false
      → let v = (create_state h id bundle w).1 in
        ((v.state ≡ none) ⊎ (v.state ≡ some (new_state id bundle)))
        × (v.state_file ≡ false → v.state ≡ none)
        × (v.config ≡ w.config)
        × (v.extension ≡ w.extension)
        × (v.fifo ≡ w.fifo)
  unfolding create_state initialize save
  create_state_files w gone absent =
      (ground arith, λ n. ground arith, ground arith, ground arith, ground arith)

  create_state_there :
      (w : World) (s : State)
      → (create_state h id bundle w).0 ≡ ok s
      → (create_state h id bundle w).1.state_file ≡ true
  unfolding create_state initialize save
  create_state_there w s r = ground arith

  unstarted : (o : Option State) → (o ≡ none) ⊎ (o ≡ some (new_state id bundle)) → Unstarted o
  unstarted o (inl e) = rw e tt
  unstarted o (inr e) = rw e (inr refl)

  pub create-made :
      (w : World)
      → w.state_file ≡ false
      → (w.state ≡ none) × (w.config ≡ none) × (w.extension ≡ none) × (w.fifo ≡ false)
      → let v = (Stages.create h id socket pid_file bundle w).1 in
        Unstarted v.state
        × (v.state_file ≡ false
            → (v.state ≡ none) × (v.config ≡ none) × (v.extension ≡ none) × (v.fifo ≡ false))
  unfolding Made Stages.create
  create-made w absent (a, b, c, d) =
      let u : World = (create_state h id bundle w).1 in
      let (e, f, p, q, r) = create_state_files w a absent in
      elim (Result-cases (create_state h id bundle w).0) [
        | inr (x, bad) ↦ rw bad (unstarted u.state e, λ n. (f n, p ∙ b, q ∙ c, r ∙ d))
        | inl (s, good) ↦
            let body = Stages.configure h id socket pid_file bundle s in
            let (same_file, same) = configure_state h id socket pid_file bundle s u in
            rw good (
              close-Made body u (subst (λ o. Unstarted o) (sym same) (unstarted u.state e))
                (same_file ∙ create_state_there w s good))
      ]

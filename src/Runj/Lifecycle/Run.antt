-- ===== src/Runj/Lifecycle/Run.antt =====
-- A container that has been created can be started.
use runj.Prelude.{
  inr, inl, Option-cases, ◌≡◌, refl, ap, ◌∙◌, true, false, some, none, Option, ok, String,
}
use runj.Status.{status_created, status_running}
use runj.Oci
use runj.Runj.Store.{State, World}
use runj.Runj.Commands.{Answers, config_of, missing_process, start}
use runj.Runj.Commands.Laws.{start_lem, Startable}
use runj.Runj.Create.{Surroundings}
use runj.Runj.Create.Stages
use runj.Runj.Create.Success.{create_lem}

-- The same parsers read the same config.
config_of_same :
    (a b : Answers) (config extension : Option String)
    → b.parse_spec ≡ a.parse_spec
    → b.parse_extension ≡ a.parse_extension
    → config_of b config extension ≡ config_of a config extension
unfolding config_of
config_of_same a b none extension p e = refl
config_of_same a b (some text) none p e = ap (λ f. f text) p
config_of_same a b (some text) (some extra) p e = elim (Option-cases (a.parse_spec text)) [
  | inl bad ↦ rw (config_of, ap (λ f. f text) p, bad) refl
  | inr (spec, good) ↦ rw (config_of, ap (λ f. f text) p, good, ap (λ f. f extra) e) refl
]

module _ (h : Surroundings) (id socket pid_file bundle : String) (w : World) where
  -- Start after a create that succeeds, and whose last write of state.json is renamed, succeeds
  -- too, where the copied config, read by the same parsers, has a process with arguments, the
  -- entrypoint opens the fifo and writes to it, and the fifo can be removed and the new state
  -- written. The container is then in the state `running` if that write can be renamed.
  pub create-start :
      (b : Answers) (spec : Oci.Spec)
      → let v = (Stages.create h id socket pid_file bundle w).1 in
        (Stages.create h id socket pid_file bundle w).0 ≡ ok tt
        → h.last_save.rename ≡ true
        → b.parse_spec ≡ h.answers.parse_spec
        → b.parse_extension ≡ h.answers.parse_extension
        → config_of h.answers v.config v.extension ≡ some spec
        → missing_process spec.process ≡ false
        → (b.open_fifo ≡ true)
          × (b.fifo_data ≡ true)
          × (b.remove_fifo ≡ true)
          × (b.disk.create_temp ≡ true)
          × (b.disk.write ≡ true)
        → ((start b v).0 ≡ ok tt)
          × (b.disk.rename ≡ true
              → (s : State) × ((start b v).1.state ≡ some s)
                × (s.status ≡ status_running)
                × (s.id ≡ id))
  create-start b spec r renames p e read args (opened, written, removes, temp, write) =
      let v : World = (Stages.create h id socket pid_file bundle w).1 in
      let (absent, copied, fifo, (pid, found, started, config, there)) =
        create_lem h id socket pid_file bundle w r renames in
      let s : State = record {
        id = id;
        jid = 0;
        status = status_created;
        bundle = bundle;
        pid = pid;
        oci_version = found.version;
      } in
      let (both, after, failed) =
        start_lem b v s spec there (config_of_same h.answers b v.config v.extension p e ∙ read) in
      let startable : Startable b v s spec =
        (args, λ n. absurd (cc n), fifo, opened, written, removes, temp, write) in
      let fine : (start b v).0 ≡ ok tt = both.1 startable in
      (
        fine,
        λ renamed. (record s { status = status_running }, after fine ∙ rw renamed refl, refl, refl),
      )

-- ===== src/Containerd/Create/Ran.antt =====
-- What Create runs under its two `defer`s, as the log of what it does.
use runj.Containerd.Command.{Host, exec_create, exec_state, console_args, OciState}
use runj.Containerd.Process.{Stdio, open_handles, set_console, set_stdio}
use runj.Containerd.Io.{setup_io, close_stdio, close_handles}
use runj.Containerd.Create.{CreateRequest, create_container, after_create, note_created}
use runj.Containerd.Aux.{update, primary_process}
use runj.Containerd.Shim.{Task, continue, Shim, Action, Error, send, act, run_command, close_handle}
use runj.Prelude.{
  Option, ℕ, String, arith, ◌++◌, ◌≡◌, ◌⊎◌, inl, inr, refl, ok, err, Result, List, [], ◌∷◌, none,
  some, map, if◌then◌else◌, append_assoc, append-nil, ap, sym, ◌∙◌,
}

close_handles-actions :
    (fds : List ℕ) (s : Shim) → (close_handles fds s).actions ≡ s.actions ++ map close_handle fds
unfolding close_handles
close_handles-actions [] s = sym (append-nil s.actions)
close_handles-actions (fd ∷ fds) s =
    close_handles-actions fds (act (close_handle fd) s)
    ∙ append_assoc s.actions (close_handle fd ∷ []) (map close_handle fds)

pub close_stdio-actions :
    (io : Stdio) (s : Shim)
    → (close_stdio io s).actions ≡ s.actions ++ map close_handle (open_handles io)
unfolding close_stdio
close_stdio-actions io s = close_handles-actions (open_handles io) s

module _ (h : Host) where
  -- The fifos that are opened: of the paths that are there, up to the first that cannot be opened.
  abbrev pub opened : List String → List ℕ
  opened [] = []
  opened (path ∷ paths) =
      let rest = opened paths in
      if h.stat path then elim (h.open_fifo path) [ none ↦ [] | some fd ↦ fd ∷ rest ] else rest

  pub setup_io-opened :
      (i o e : String) → open_handles (setup_io h i o e).0 ≡ opened (i ∷ o ∷ e ∷ [])
  unfolding setup_io open_handles
  setup_io-opened i o e = ground arith

continued-actions :
    {A B : Type 0} (r : Result Error A) (f : A → Task B) (s : Shim)
    → ((a : A) → (f a s).1.actions ≡ s.actions)
    → (continue r f s).1.actions ≡ s.actions
continued-actions (ok a) f s k = k a
continued-actions (err e) f s k = refl

module _ (h : Host) (req : CreateRequest) where
  -- `runj create`, with the socket of a terminal
  abbrev pub create_run : Action
  create_run = run_command (
      "create"
      ∷ req.id
      ∷ req.bundle
      ∷ console_args (if req.terminal then h.console_socket else none))

  abbrev pub state_run : Action
  state_run = run_command ("state" ∷ req.id ∷ [])

  exec_create-actions :
      (s : Shim)
      → ((exec_create h req.id req.bundle req.terminal s).1 ≡ s)
        ⊎ ((exec_create h req.id req.bundle req.terminal s).1 ≡ act create_run s)
  unfolding exec_create
  exec_create-actions s = ground arith

  exec_create-ok :
      (s : Shim) (con : Option ℕ)
      → (exec_create h req.id req.bundle req.terminal s).0 ≡ ok con
      → (exec_create h req.id req.bundle req.terminal s).1 ≡ act create_run s
  unfolding exec_create
  exec_create-ok s con e = ground (arith, e)

  exec_state-act : (s : Shim) → (exec_state h req.id s).1 ≡ act state_run s
  unfolding exec_state
  exec_state-act s = ground arith

  note_created-actions : (pid : ℕ) (s : Shim) → (note_created req pid s).1.actions ≡ s.actions
  unfolding note_created send
  note_created-actions pid s = ground arith

  after_create-actions :
      (pio : Stdio) (con : Option ℕ) (s : Shim)
      → (after_create h req pio con s).1.actions ≡ s.actions ++ state_run ∷ []
  unfolding after_create update
  after_create-actions pio con s =
      let v = update primary_process (set_console con) (update primary_process (set_stdio pio) s) in
      let (r, v') = exec_state h req.id v in
      continued-actions r (λ (st : OciState). note_created req st.pid) v'
        (λ st. note_created-actions st.pid v')
      ∙ ap (λ (x : Shim). x.actions) (exec_state-act v)

  -- The part under the `defer`s runs `runj create` and `runj state`, and has run both where it
  -- succeeds.
  abbrev pub Ran : Result Error ℕ → List Action → Type 0
  Ran r ran =
      (rest : List Action) × (ran ++ rest ≡ create_run ∷ state_run ∷ [])
      × ((pid : ℕ) → r ≡ ok pid → rest ≡ [])

  -- What is run, from the state `s`, up to the result.
  abbrev pub Runs : Shim → Result Error ℕ × Shim → Type 0
  Runs s (r, v) = (ran : List Action) × (v.actions ≡ s.actions ++ ran) × Ran r ran

  created-Runs :
      (pio : Stdio) (r : Result Error (Option ℕ)) (s v : Shim)
      → (v ≡ s) ⊎ (v ≡ act create_run s)
      → ((con : Option ℕ) → r ≡ ok con → v ≡ act create_run s)
      → Runs s (continue r (λ con. after_create h req pio con) v)
  created-Runs pio (ok con) s v e k = (
    create_run ∷ state_run ∷ [],
    after_create-actions pio con v
        ∙ ap (λ (x : Shim). x.actions ++ state_run ∷ []) (k con refl)
        ∙ append_assoc s.actions (create_run ∷ []) (state_run ∷ []),
    ([], refl, λ pid h. refl),
  )
  created-Runs pio (err e) s v (inl q) k = (
    [],
    ap (λ (x : Shim). x.actions) q ∙ sym (append-nil s.actions),
    (create_run ∷ state_run ∷ [], refl, λ pid h. cc),
  )
  created-Runs pio (err e) s v (inr q) k =
      (create_run ∷ [], ap (λ (x : Shim). x.actions) q, (state_run ∷ [], refl, λ pid h. cc))

  pub create_container-Runs :
      (io : Stdio × Result Error (Unit {0})) (s : Shim) → Runs s (create_container h req io s)
  unfolding create_container
  create_container-Runs (pio, err e) s =
      ([], sym (append-nil s.actions), (create_run ∷ state_run ∷ [], refl, λ pid h. cc))
  create_container-Runs (pio, ok u) s =
      created-Runs pio (exec_create h req.id req.bundle req.terminal s).0 s
        (exec_create h req.id req.bundle req.terminal s).1 (exec_create-actions s)
        (exec_create-ok s)

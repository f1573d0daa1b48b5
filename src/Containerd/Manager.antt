-- ===== src/Containerd/Manager.antt =====
-- containerd/manager.go: the start of a shim process, and the fall-back that cleans up after one.
use runj.Prelude.{
  sym, ap, ◌∙◌, append-nil, ◌≡◌, refl, ℕ, String, Bool, true, false, Option, none, some, List, [],
  ◌∷◌, ◌++◌, ok, ◌⊎◌, inl, inr, Bool-cases, ◌==ℕ◌, Option-cases, arith, append_assoc, if◌then◌else◌,
}
use runj.Containerd.Shim.{act, Shim, Task, pure, ignore, run_command, ◌>>◌}
use runj.Containerd.Command.{Host, exec_kill, exec_delete, kill_args}

-- shim.NewSocket
pub data Socket : Type 0 where
  made in_use unmade : Socket

-- What containerd's packages and the system answer to Start.
pub record Launch : Type 0 where
  pub namespace : Option String
  pub executable : Option String
  pub cwd : Option String
  pub socket_address : Option String
  pub socket : Socket
  pub remove_socket : Bool
  -- the second attempt
  pub new_socket : Bool
  pub socket_file : Bool
  -- the pid of the process
  pub start : Option ℕ
  pub write_pid_file : Bool

pub data Act : Type 0 where
  remove_socket : Act
  -- the program, its arguments, its directory and its pid
  started : String → List String → String → ℕ → Act
  killed : ℕ → Act

-- A socket that is in use is removed and made again. Whether there is one then, and what is done.
socket_of : Socket → Bool → Bool → Bool × List Act
socket_of made removes again = (true, [])
socket_of unmade removes again = (false, [])
socket_of in_use removes again = if removes then (again, remove_socket ∷ []) else (false, [])

module _ (l : Launch) where
  -- newReexec: the program, the arguments and the directory
  unfoldable pub new_reexec : String → String → Option (String × List String × String)
  new_reexec id address = elim l.namespace [
    | none ↦ none
    | some ns ↦ elim l.executable [
      | none ↦ none
      | some self ↦ elim l.cwd [
        | none ↦ none
        | some cwd ↦ some (self, "-namespace" ∷ ns ∷ "-id" ∷ id ∷ "-address" ∷ address ∷ [], cwd)
      ]
    ]
  ]

  unfoldable pub make_socket : Bool × List Act
  unfolding socket_of
  make_socket = socket_of l.socket l.remove_socket l.new_socket

  -- Start from cmd.Start on: the deferred function removes the socket and kills the process.
  unfoldable pub launch : String × List String × String → String → Option String × List Act
  launch (self, args, cwd) address = elim l.start [
    | none ↦ (none, [])
    | some pid ↦
        if l.write_pid_file
        then (some address, started self args cwd pid ∷ [])
        else (none, started self args cwd pid ∷ remove_socket ∷ killed pid ∷ [])
  ]

  -- Start: the address of the shim, none where it fails
  unfoldable pub start_shim : String → String → Option String × List Act
  unfolding new_reexec make_socket launch
  start_shim id containerd = elim (new_reexec id containerd) [
    | none ↦ (none, [])
    | some cmd ↦ elim l.socket_address [
      | none ↦ (none, [])
      | some address ↦
          if make_socket.0
          then (if l.socket_file
              then ((launch cmd address).0, make_socket.1 ++ (launch cmd address).1)
              else (none, make_socket.1))
          else (none, make_socket.1)
    ]
  ]

-- Stop: the exit status that it reports, 128 + SIGKILL
unfoldable pub stop : Host → String → Task ℕ
unfolding exec_kill exec_delete
stop h id = do ignore (exec_kill h id "KILL" true 0); ignore (exec_delete h id); pure 137

exec_kill_acts :
    (h : Host) (id : String) (s : Shim)
    → (exec_kill h id "KILL" true 0 s).1 ≡ act (run_command (kill_args id "KILL" true 0)) s
unfolding exec_kill
exec_kill_acts h id s = ground arith

exec_delete_acts :
    (h : Host) (id : String) (s : Shim)
    → (exec_delete h id s).1 ≡ act (run_command ("delete" ∷ id ∷ [])) s
unfolding exec_delete
exec_delete_acts h id s = ground arith

-- Stop always reports a status, and runs `runj kill` of all processes with KILL and then
-- `runj delete`, whatever either answers.
pub stop_lem :
    (h : Host) (id : String) (s : Shim)
    → ((stop h id s).0 ≡ ok 137)
      × ((stop h id s).1.actions
          ≡ s.actions
            ++ run_command (kill_args id "KILL" true 0) ∷ run_command ("delete" ∷ id ∷ []) ∷ [])
unfolding stop
stop_lem h id s =
    let kills = run_command (kill_args id "KILL" true 0) in
    let deletes = run_command ("delete" ∷ id ∷ []) in
    let both : (act deletes (act kills s)).actions ≡ s.actions ++ kills ∷ deletes ∷ [] =
      rw append_assoc refl in
    (
      refl,
      ap (λ z. z.actions) (exec_delete_acts h id (exec_kill h id "KILL" true 0 s).1)
          ∙ ap (λ z. (act deletes z).actions) (exec_kill_acts h id s)
          ∙ both,
    )

remove_pid : ℕ → List ℕ → List ℕ
remove_pid p [] = []
remove_pid p (q ∷ qs) = let rest = remove_pid p qs in if p ==ℕ q then qs else q ∷ rest

-- The processes that are started and not killed, given those that run before.
unfoldable pub live : List Act → List ℕ → List ℕ
unfolding remove_pid
live [] pids = pids
live (remove_socket ∷ acts) pids = live acts pids
live (started self args cwd pid ∷ acts) pids = live acts (pid ∷ pids)
live (killed pid ∷ acts) pids = live acts (remove_pid pid pids)

module _ (l : Launch) where
  -- What becomes of the processes.
  Outcome : Option String × List Act → Type 0
  Outcome v =
      ((v.0 ≡ none) × (live v.1 [] ≡ []))
      ⊎ ((address : String) × (pid : ℕ) × (v.0 ≡ some address)
          × (l.socket_address ≡ some address)
          × (l.start ≡ some pid)
          × (live v.1 [] ≡ pid ∷ []))

  pids_equal : (p : ℕ) → (p ==ℕ p) ≡ true
  pids_equal p = ground arith

  live-socket_of :
      (k : Socket) (removes again : Bool) (x : List Act)
      → live ((socket_of k removes again).1 ++ x) [] ≡ live x []
  unfolding live socket_of
  live-socket_of made removes again x = refl
  live-socket_of unmade removes again x = refl
  live-socket_of in_use true again x = refl
  live-socket_of in_use false again x = refl

  live_socket : (x : List Act) → live ((make_socket l).1 ++ x) [] ≡ live x []
  unfolding make_socket
  live_socket x = live-socket_of l.socket l.remove_socket l.new_socket x

  live_made : live (make_socket l).1 [] ≡ []
  unfolding live
  live_made = ap (λ x. live x []) (sym (append-nil (make_socket l).1)) ∙ live_socket []

  -- Start either fails, and then no process that it has started is left running, or succeeds
  -- with the address of its socket and leaves exactly the one process of the shim.
  pub start_shim_lem :
      (id containerd : String)
      → let v = start_shim l id containerd in
        ((v.0 ≡ none) × (live v.1 [] ≡ []))
        ⊎ ((address : String) × (pid : ℕ) × (v.0 ≡ some address)
            × (l.socket_address ≡ some address)
            × (l.start ≡ some pid)
            × (live v.1 [] ≡ pid ∷ []))
  unfolding start_shim launch live
  start_shim_lem id containerd = elim (Option-cases (new_reexec l id containerd)) [
    | inl none' ↦ inl (rw (start_shim, none') refl, rw (start_shim, none') refl)
    | inr ((self, args, cwd), cmd) ↦ elim (Option-cases l.socket_address) [
      | inl none' ↦ inl (rw (start_shim, cmd, none') refl, rw (start_shim, cmd, none') refl)
      | inr (address, at) ↦ elim (Bool-cases (make_socket l).0) [
        | inr unmade' ↦
            inl
              (rw (start_shim, cmd, at, unmade') refl, rw (start_shim, cmd, at, unmade') live_made)
        | inl has ↦ elim (Bool-cases l.socket_file) [
          | inr closed ↦ inl (
            rw (start_shim, cmd, at, has, closed) refl,
            rw (start_shim, cmd, at, has, closed) live_made,
          )
          | inl file ↦ elim (Option-cases l.start) [
            | inl refused ↦ inl (
              rw (start_shim, cmd, at, has, file, launch, refused) refl,
              rw (start_shim, cmd, at, has, file, launch, refused, append-nil) live_made,
            )
            | inr (pid, runs) ↦ elim (Bool-cases l.write_pid_file) [
              | inr full ↦
                  let ends = started self args cwd pid ∷ remove_socket ∷ killed pid ∷ [] in
                  inl (
                    rw (start_shim, cmd, at, has, file, launch, runs, full) refl,
                    rw (start_shim, cmd, at, has, file, launch, runs, full)
                        (live_socket ends ∙ rw (remove_pid, pids_equal) refl),
                  )
              | inl written ↦ inr (
                address,
                pid,
                rw (start_shim, cmd, at, has, file, launch, runs, written) refl,
                at,
                runs,
                rw (start_shim, cmd, at, has, file, launch, runs, written)
                    (live_socket (started self args cwd pid ∷ [])),
              )
            ]
          ]
        ]
      ]
    ]
  ]

-- ===== src/Entrypoint/Confined.antt =====
-- The program of the container runs in the jail, or not at all.
use runj.Prelude.{
  subst, ok, ◌⊎◌, err, Option-cases, Result, sym, ◌≡◌, inl, inr, refl, true, false, ℕ, String, Bool,
  Bool-cases, Option, none, some, List, [], ◌∷◌, ◌++◌, append_assoc, append-nil, Result-cases, ◌==◌,
  All, All-append,
}
use runj.Text.Decimal.{ℤ, atoi}
use runj.Entrypoint.{
  chdir, attach, enter, Result, main, Act, Kernel, Entry, await_start, setup_console, dup_stdio,
  exec, open_fifo, write_fifo, step, given, open_slave, setsid, set_tty, dup_to, new_pty, send_fd,
  ◌>>=◌, ◌>>◌,
}

abbrev pub is_exec : Act → Bool
is_exec (exec path argv) = true
is_exec _ = false

-- What a part of the program adds to the log runs no program.
Prepares : List Act → List Act → Type 0
Prepares log log' = (t : List Act) × (log' ≡ log ++ t) × All (λ x. is_exec x ≡ false) t

Prepares-refl : (log : List Act) → Prepares log log
unfolding Prepares
Prepares-refl log = ([], sym (append-nil log), tt)

Prepares-trans : (a b c : List Act) → Prepares a b → Prepares b c → Prepares a c
unfolding Prepares
Prepares-trans a b c (s, e, p) (t, f, q) =
    (s ++ t, rw (f, e, append_assoc), All-append (λ x. is_exec x ≡ false) s t p q)

runs_nothing : (log : List Act) → Prepares [] log → All (λ x. is_exec x ≡ false) log
unfolding Prepares
runs_nothing log (t, e, p) = subst (λ l. All (λ x. is_exec x ≡ false) l) (sym e) p

module _ {A B : Type 0} where
  Prepares-bind :
      (m : Entry A) (f : A → Entry B)
      → ((log : List Act) → Prepares log (m log).1)
      → ((a : A) (log : List Act) → Prepares log (f a log).1)
      → (log : List Act) → Prepares log ((m >>= f) log).1
  Prepares-bind m f p q log = elim (Result-cases (m log).0) [
    | inr (e, r) ↦ rw r (p log)
    | inl (a, r) ↦ rw r (Prepares-trans log (m log).1 (f a (m log).1).1 (p log) (q a (m log).1))
  ]

step-Prepares :
    (b : Bool) (x : Act) (code : ℕ)
    → is_exec x ≡ false
    → (log : List Act) → Prepares log (step b x code log).1
unfolding Prepares
step-Prepares true x code e log = (x ∷ [], refl, (e, tt))
step-Prepares false x code e log = ([], sym (append-nil log), tt)

given-Prepares :
    {A : Type 0} (o : Option A) (code : ℕ) (log : List Act) → Prepares log (given o code log).1
given-Prepares none code log = Prepares-refl log
given-Prepares (some a) code log = Prepares-refl log

module _ (k : Kernel) where
  steps-Prepares :
      (b : Bool) (x : Act) (code : ℕ) (n : Entry (Unit {0}))
      → is_exec x ≡ false
      → ((log : List Act) → Prepares log (n log).1)
      → (log : List Act) → Prepares log ((step b x code >> n) log).1
  steps-Prepares b x code n e p =
      Prepares-bind (step b x code) (λ _. n) (step-Prepares b x code e) (λ _. p)

  dup_stdio-Prepares : (log : List Act) → Prepares log (dup_stdio k log).1
  unfolding dup_stdio
  dup_stdio-Prepares =
      let two = step (k.dup2 2) (dup_to 2) 2 in
      let one = step (k.dup2 1) (dup_to 1) 2 >> two in
      let zero' = step (k.dup2 0) (dup_to 0) 2 >> one in
      let tty = step k.set_tty set_tty 2 >> zero' in
      let sid = step k.setsid setsid 2 >> tty in
      steps-Prepares k.open_slave open_slave 2 sid refl (
        steps-Prepares k.setsid setsid 2 tty refl (
          steps-Prepares k.set_tty set_tty 2 zero' refl (
            steps-Prepares (k.dup2 0) (dup_to 0) 2 one refl (
              steps-Prepares (k.dup2 1) (dup_to 1) 2 two refl
                (step-Prepares (k.dup2 2) (dup_to 2) 2 refl)))))

  setup_console-Prepares :
      (socket : String) (log : List Act) → Prepares log (setup_console k socket log).1
  unfolding setup_console
  setup_console-Prepares socket log = elim (Bool-cases (socket == "")) [
    | inl none' ↦ rw none' (Prepares-refl log)
    | inr set ↦
        let sends : ℤ → Entry (Unit {0}) = λ fd. step k.send_fd (send_fd fd) 2 >> dup_stdio k in
        let opens : ℤ → Entry (Unit {0}) = λ fd. step k.new_pty new_pty 2 >> sends fd in
        rw set (
          Prepares-bind (given (atoi socket) 2) opens (given-Prepares (atoi socket) 2)
            (λ fd.
              steps-Prepares k.new_pty new_pty 2 (sends fd) refl
                (steps-Prepares k.send_fd (send_fd fd) 2 (dup_stdio k) refl dup_stdio-Prepares))
            log)
  ]

  await_start-Prepares : (path : String) (log : List Act) → Prepares log (await_start k path log).1
  unfolding await_start
  await_start-Prepares path log = elim (Bool-cases (path == "-")) [
    | inl skipped ↦ rw skipped (Prepares-refl log)
    | inr waits ↦ rw waits (
        steps-Prepares k.open_fifo (open_fifo path) 3 (step k.write_fifo write_fifo 4) refl
          (step-Prepares k.write_fifo write_fifo 4 refl) log)
  ]

  -- The program runs, with this log, or it does not, and the program ends with an error.
  Enters : String → String → List String → List Act → Result ℕ (Unit {0}) × List Act → Type 0
  Enters id command argv log v =
      ((code : ℕ) × (v.0 ≡ err code) × Prepares log v.1)
      ⊎ ((jid : ℕ) × (path : String) × (k.find_jail id ≡ some jid)
          × (k.look_path command ≡ some path)
          × (v.0 ≡ ok tt)
          × (v.1 ≡ log ++ attach jid ∷ chdir ∷ exec path (command ∷ argv) ∷ []))

  enter-Enters :
      (id command : String) (argv : List String) (log : List Act)
      → Enters id command argv log (enter k id command argv log)
  unfolding Enters enter Prepares
  enter-Enters id command argv log = elim (Option-cases (k.find_jail id)) [
    | inl absent ↦ inl (5, rw absent refl, ([], rw (absent, append-nil) refl, tt))
    | inr (jid, found) ↦ elim (Bool-cases k.attach) [
      | inr refused ↦
          inl (6, rw (found, refused) refl, ([], rw (found, refused, append-nil) refl, tt))
      | inl attached ↦ elim (Bool-cases k.chdir) [
        | inr refused ↦ inl (
          7,
          rw (found, attached, refused) refl,
          (attach jid ∷ [], rw (found, attached, refused) refl, (refl, tt)),
        )
        | inl changed ↦ elim (Option-cases (k.look_path command)) [
          | inl missing ↦ inl (
            8,
            rw (found, attached, changed, missing) refl,
            (
              attach jid ∷ chdir ∷ [],
              rw (found, attached, changed, missing, append_assoc) refl,
              (refl, (refl, tt)),
            ),
          )
          | inr (path, there) ↦ elim (Bool-cases k.exec) [
            | inr refused ↦ inl (
              9,
              rw (found, attached, changed, there, refused) refl,
              (
                attach jid ∷ chdir ∷ [],
                rw (found, attached, changed, there, refused, append_assoc) refl,
                (refl, (refl, tt)),
              ),
            )
            | inl runs ↦ inr (
              jid,
              path,
              found,
              there,
              rw (found, attached, changed, there, runs) refl,
              rw (found, attached, changed, there, runs, append_assoc, append_assoc) refl,
            )
          ]
        ]
      ]
    ]
  ]

  -- runj-entrypoint, with these arguments, either ends with an exit code, and has run no program,
  -- or runs the command it is given exactly once: last, directly after it has attached to the
  -- jail of that id and has changed to the jail's root.
  pub main_lem :
      (name id path command : String) (argv : List String) (socket : String)
      → let v = main k (name ∷ id ∷ path ∷ command ∷ argv) socket [] in
        ((code : ℕ) × (v.0 ≡ err code) × All (λ x. is_exec x ≡ false) v.1)
        ⊎ ((jid : ℕ) × (program : String) × (t : List Act) × (k.find_jail id ≡ some jid)
            × (k.look_path command ≡ some program)
            × (v.1 ≡ t ++ attach jid ∷ chdir ∷ exec program (command ∷ argv) ∷ [])
            × All (λ x. is_exec x ≡ false) t)
  unfolding main Prepares Enters
  main_lem name id path command argv socket =
      let log1 = (setup_console k socket []).1 in
      let log2 = (await_start k path log1).1 in
      let p1 = setup_console-Prepares socket [] in
      let p2 = Prepares-trans [] log1 log2 p1 (await_start-Prepares path log1) in
      elim (Result-cases (setup_console k socket []).0) [
        | inr (code, r) ↦ inl (code, rw r refl, rw r (runs_nothing log1 p1))
        | inl (u, r) ↦ elim (Result-cases (await_start k path log1).0) [
          | inr (code, q) ↦ inl (code, rw (r, q) refl, rw (r, q) (runs_nothing log2 p2))
          | inl (u', q) ↦ elim (enter-Enters id command argv log2) [
            | inl (code, e, p) ↦
                inl (code, rw (r, q) e, rw (r, q) (runs_nothing _ (Prepares-trans [] log2 _ p2 p)))
            | inr (jid, program, found, there, e, log) ↦
                inr (jid, program, log2, found, there, rw (r, q) log, runs_nothing log2 p2)
          ]
        ]
      ]

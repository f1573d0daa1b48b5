-- ===== src/Runj/Lifecycle/Moves.antt =====
-- How each command changes the files of a container.
use runj.Prelude.{
  ◌≡◌, refl, Option, none, some, Bool, true, false, ℕ, ◌⊎◌, inl, inr, Bool-cases, Option-cases,
  Result-cases, arith, ◌==◌, ◌!=◌, eq_iff, not, sym, ap, subst, ◌∙◌, if◌then◌else◌, ◌==ℕ◌, ◌&&◌,
}
use runj.Text.Decimal.{ℤ}
use runj.Status.{status_running, status_stopped}
use runj.Jail.Ps.{is_running}
use runj.Runj.Store.{
  Output, proceed, answered, no_state, Command, done, output, fails_if, effect, kill_all,
  kill_process, not_running, jail_failed, ◌>>=◌, ◌>>◌, State, World, save, load,
}
use runj.Runj.Commands
use runj.Runj.Commands.Files.{SameFiles}

-- Nothing changes but that the fifo may go.
abbrev pub Quiet : World → World → Type 0
Quiet w v =
    (v.state_file ≡ w.state_file)
    × (v.state ≡ w.state)
    × (v.config ≡ w.config)
    × (v.extension ≡ w.extension)
    × (v.fifo ≡ true → w.fifo ≡ true)

-- No file is left.
abbrev pub Gone : World → Type 0
Gone v = (v.state ≡ none) × (v.config ≡ none) × (v.extension ≡ none) × (v.fifo ≡ false)

-- A new state is written.
abbrev pub Written : World → World → State → State → Type 0
Written w v s t =
    (w.state ≡ some s)
    × (v.state_file ≡ true)
    × (v.state ≡ some t)
    × (v.fifo ≡ true → w.fifo ≡ true)

abbrev pub Stopped : World → World → Type 0
Stopped w v =
    (s : State) × (t : State) × (s.status ≡ status_running)
    × (t.status ≡ status_stopped)
    × Written w v s t

Moves : World → World → Type 0
Moves w v = Quiet w v ⊎ Stopped w v

Moves-same : (w u v : World) → SameFiles u v → Moves w u → Moves w v
unfolding Moves
Moves-same w u v (a, b, c, d, e) (inl (p, q, r, s, t)) =
    inl (a ∙ p, b ∙ q, c ∙ r, d ∙ s, λ f. t (sym e ∙ f))
Moves-same w u v (a, b, c, d, e) (inr (s, t, p, q, (l, x, y, z))) =
    let wrote : Written w v s t = (l, a ∙ x, b ∙ y, λ f. z (sym e ∙ f)) in inr (s, t, p, q, wrote)

Moves-bind {ℓ κ} :
    {A : Type ℓ} {B : Type κ} (m : Command A) (f : A → Command B) (w : World)
    → ((t : A) (u : World) → SameFiles u (f t u).1)
    → Moves w (m w).1
    → Moves w ((m >>= f) w).1
Moves-bind m f w same moves = elim (Result-cases (m w).0) [
  | inl (t, r) ↦ rw r (Moves-same w (m w).1 (f t (m w).1).1 (same t (m w).1) moves)
  | inr (e, r) ↦ rw r moves
]

load-bind {ℓ} :
    {A : Type ℓ} (f : State → Command A) (w : World) (s : State)
    → w.state ≡ some s
    → ((load >>= f) w).1 ≡ (f s w).1
unfolding load
load-bind f w s l = ap (λ o. (proceed (answered o no_state w).0 f (answered o no_state w).1).1) l

module _ (a : Commands.Answers) where
  refresh-Moves :
      (forget : State → State) (s : State) (w : World)
      → ((t : State) → (forget t).status ≡ t.status)
      → w.state ≡ some s
      → Moves w (Commands.refresh a forget s w).1
  unfolding Moves Commands.refresh save
  refresh-Moves forget s w keeps l = elim (Bool-cases (s.status == status_running)) [
    | inr other ↦ inl (rw other (refl, refl, refl, refl, λ f. f))
    | inl running ↦ elim (Option-cases (is_running a.ps s.pid)) [
      | inl unknown ↦ inl (rw (running, unknown) (refl, refl, refl, refl, λ f. f))
      | inr (true, there) ↦ inl (rw (running, there) (refl, refl, refl, refl, λ f. f))
      | inr (false, gone) ↦ elim (Bool-cases a.disk.create_temp) [
        | inr full ↦ inl (rw (running, gone, full) (refl, refl, refl, refl, λ f. f))
        | inl temp ↦ elim (Bool-cases a.disk.write) [
          | inr full ↦ inl (rw (running, gone, temp, full) (refl, refl, refl, refl, λ f. f))
          | inl written ↦ elim (Bool-cases a.disk.rename) [
            | inr kept ↦
                inl (rw (running, gone, temp, written, kept) (refl, refl, refl, refl, λ f. f))
            | inl renamed ↦
                let t : State = forget (record s { status = status_stopped }) in
                let v : World = (Commands.refresh a forget s w).1 in
                let wrote : Written w v s t =
                  rw (running, gone, temp, written, renamed) (l, refl, refl, λ f. f) in
                let was = (eq_iff s.status status_running).0 running in
                inr (s, t, was, keeps (record s { status = status_stopped }), wrote)
          ]
        ]
      ]
    ]
  ]

  -- What a command that refreshes the state does beyond that is not in the files.
  pub state_moves : (w : World) → Quiet w (Commands.state a w).1 ⊎ Stopped w (Commands.state a w).1
  unfolding Moves Commands.state load
  state_moves w = elim (Option-cases w.state) [
    | inl missing ↦ inl (rw missing (refl, refl, refl, refl, λ f. f))
    | inr (s, l) ↦
        let forget : State → State = λ s. record s { pid = 0 } in
        let tail : State → Command Output =
          λ s. (do t ← Commands.refresh a forget s; done (output a.version t)) in
        subst (λ v. Moves w v) (sym (load-bind tail w s l))
          (Moves-bind (Commands.refresh a forget s) (λ t. done (output a.version t)) w
            (λ t u. (refl, refl, refl, refl, refl)) (refresh-Moves forget s w (λ t. refl) l))
  ]

  send : ℤ → Bool → ℕ → State → Command (Unit {0})
  send n all pid t = do
    fails_if (t.status != status_running) not_running
    effect (if all then kill_all n else kill_process (if pid ==ℕ 0 then t.pid else pid) n)
    fails_if (not a.kill) jail_failed

  send_files :
      (n : ℤ) (all : Bool) (pid : ℕ) (t : State) (u : World) → SameFiles u (send n all pid t u).1
  unfolding send
  send_files n all pid t u = (ground arith, ground arith, ground arith, ground arith, ground arith)

  pub kill_moves :
      (signal : Option ℤ) (all : Bool) (pid : ℕ) (w : World)
      → Quiet w (Commands.kill a signal all pid w).1
        ⊎ Stopped w (Commands.kill a signal all pid w).1
  unfolding Moves send Commands.kill load
  kill_moves none all pid w =
      inl (ground arith, ground arith, ground arith, ground arith, λ f. ground arith)
  kill_moves (some n) all pid w = elim (Bool-cases (all && not (pid ==ℕ 0))) [
    | inl both ↦ inl (rw both (refl, refl, refl, refl, λ f. f))
    | inr one ↦ elim (Option-cases w.state) [
      | inl missing ↦ inl (rw (one, missing) (refl, refl, refl, refl, λ f. f))
      | inr (s, l) ↦
          let tail : State → Command (Unit {0}) =
            λ s. (do t ← Commands.refresh a (λ s. s) s; send n all pid t) in
          let same : (Commands.kill a (some n) all pid w).1 ≡ (tail s w).1 =
            rw one (load-bind tail w s l) in
          subst (λ v. Moves w v) (sym same)
            (Moves-bind (Commands.refresh a (λ s. s) s) (send n all pid) w (send_files n all pid)
              (refresh-Moves (λ s. s) s w (λ t. refl) l))
    ]
  ]

  pub start_moves :
      (w : World)
      → Quiet w (Commands.start a w).1
        ⊎ ((s : State) × (w.fifo ≡ true)
            × ((Commands.start a w).1.fifo ≡ false)
            × Written w (Commands.start a w).1 s (record s { status = status_running }))
  unfolding Commands.start load save Commands.load_config Commands.await_fifo
  start_moves w = elim (Option-cases w.state) [
    | inl missing ↦ inl (ground arith, ground arith, ground arith, ground arith, λ f. ground arith)
    | inr (s, l) ↦ elim (Result-cases (Commands.start a w).0) [
      | inr (e, r) ↦ inl (ground arith, ground arith, ground arith, ground arith, λ f. ground arith)
      | inl (u, r) ↦ elim (Bool-cases a.disk.rename) [
        | inr kept ↦ inl (ground arith, ground arith, ground arith, ground arith, λ f. ground arith)
        | inl renamed ↦
            let v : World = (Commands.start a w).1 in
            let wrote : Written w v s (record s { status = status_running }) =
              (l, ground arith, ground arith, λ f. ground arith) in
            inr (s, ground arith, ground arith, wrote)
      ]
    ]
  ]

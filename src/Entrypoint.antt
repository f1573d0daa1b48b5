-- ===== src/Entrypoint.antt =====
-- cmd/runj-entrypoint/main.go: the program that waits for `runj start`, enters the jail and becomes
-- the container's process. An error is the exit code that main ends with.
pub mod Confined
pub mod Codes
pub mod Handshake
use runj.Prelude.{
  true, false, ℕ, String, Bool, Option, none, some, List, [], ◌∷◌, ◌++◌, not, ok, err, Result, ◌==◌,
  if◌then◌else◌, ◌||◌,
}
use runj.Text.Decimal.{ℤ, atoi}

-- What the program has done.
pub data Act : Type 0 where
  new_pty open_slave setsid set_tty : Act
  send_fd : ℤ → Act
  dup_to : ℕ → Act
  open_fifo : String → Act
  write_fifo : Act
  attach : ℕ → Act
  chdir : Act
  exec : String → List String → Act

-- What the kernel answers, and the console package.
pub record Kernel : Type 0 where
  pub new_pty : Bool
  pub send_fd : Bool
  pub open_slave : Bool
  pub setsid : Bool
  pub set_tty : Bool
  pub dup2 : ℕ → Bool
  pub open_fifo : Bool
  pub write_fifo : Bool
  -- jail.FromName
  pub find_jail : String → Option ℕ
  pub attach : Bool
  pub chdir : Bool
  pub look_path : String → Option String
  pub exec : Bool

abbrev pub Entry {ℓ} : Type ℓ → Type ℓ
Entry A = List Act → Result ℕ A × List Act

abbrev pub proceed {ℓ κ} :
    {A : Type ℓ} {B : Type κ} → Result ℕ A → (A → Entry B) → List Act → Result ℕ B × List Act
proceed (ok a) f log = f a log
proceed (err code) f log = (err code, log)

infixl 10 ◌>>=◌ ◌>>◌
abbrev pub ◌>>=◌ {ℓ κ} : {A : Type ℓ} {B : Type κ} → Entry A → (A → Entry B) → Entry B
◌>>=◌ m f log = proceed (m log).0 f (m log).1

abbrev pub ◌>>◌ {ℓ κ} : {A : Type ℓ} {B : Type κ} → Entry A → Entry B → Entry B
m >> n = m >>= λ _. n

-- A step that is done where the kernel lets it, and otherwise ends the program with this code.
abbrev pub step : Bool → Act → ℕ → Entry (Unit {0})
step b x code log = if b then (ok tt, log ++ x ∷ []) else (err code, log)

abbrev pub given {ℓ} : {A : Type ℓ} → Option A → ℕ → Entry A
given none code log = (err code, log)
given (some a) code log = (ok a, log)

module _ (k : Kernel) where
  -- dupStdio; every error of the console ends with the same code.
  unfoldable pub dup_stdio : Entry (Unit {0})
  dup_stdio = do
    step k.open_slave open_slave 2
    step k.setsid setsid 2
    step k.set_tty set_tty 2
    step (k.dup2 0) (dup_to 0) 2
    step (k.dup2 1) (dup_to 1) 2
    step (k.dup2 2) (dup_to 2) 2

  -- setupConsole, of what the environment says of the socket
  unfoldable pub setup_console : String → Entry (Unit {0})
  unfolding dup_stdio
  setup_console socket = if socket == "" then (λ log. (ok tt, log)) else (do
    fd ← given (atoi socket) 2
    step k.new_pty new_pty 2
    step k.send_fd (send_fd fd) 2
    dup_stdio)

  -- The wait for `runj start`
  unfoldable pub await_start : String → Entry (Unit {0})
  await_start path =
      if path == "-"
      then (λ log. (ok tt, log))
      else (do step k.open_fifo (open_fifo path) 3; step k.write_fifo write_fifo 4)

  -- _main from the jail on; execve(2) does not return where it succeeds.
  unfoldable pub enter : String → String → List String → Entry (Unit {0})
  enter id command argv = do
    jid ← given (k.find_jail id) 5
    step k.attach (attach jid) 6
    step k.chdir chdir 7
    path ← given (k.look_path command) 8
    step k.exec (exec path (command ∷ argv)) 9

  -- _main, of the arguments with the name of the program
  unfoldable pub main : List String → String → Entry (Unit {0})
  unfolding setup_console await_start enter
  main (name ∷ id ∷ path ∷ command ∷ argv) socket = do
    setup_console socket
    await_start path
    enter id command argv
  main _ socket = λ log. (err 1, log)

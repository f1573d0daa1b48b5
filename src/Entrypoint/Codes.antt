-- ===== src/Entrypoint/Codes.antt =====
-- The exit codes of runj-entrypoint.
use runj.Prelude.{
  ◌≡◌, true, false, ℕ, String, Bool, Option, none, some, List, [], ◌∷◌, ok, err, Result, ◌==◌, ◌||◌,
  ◌&&◌, arith, if◌then◌else◌,
}
use runj.Text.Decimal.{atoi}
use runj.Entrypoint.{Kernel, main, enter, await_start, setup_console, dup_stdio}

abbrev pub is_some {ℓ} : {A : Type ℓ} → Option A → Bool
is_some none = false
is_some (some a) = true

-- The code of the first check that fails.
abbrev pub first_failure : List (Bool × ℕ) → Result ℕ (Unit {0})
first_failure [] = ok tt
first_failure ((b, code) ∷ rest) = if b then first_failure rest else err code

module _ (k : Kernel) where
  abbrev pub console_ok : String → Bool
  console_ok socket =
      socket == ""
      || (is_some (atoi socket)
          && k.new_pty
          && k.send_fd
          && k.open_slave
          && k.setsid
          && k.set_tty
          && k.dup2 0
          && k.dup2 1
          && k.dup2 2)

  -- runj-entrypoint ends with the exit code of the first of its checks that fails, in this order,
  -- and runs the program where none does: the console, the opening of the fifo and the write to
  -- it, which are left out for the path "-", the jail, its attachment, the change of directory,
  -- the look-up of the command, and its execution.
  pub main_code_lem :
      (name id path command : String) (argv : List String) (socket : String)
      → (main k (name ∷ id ∷ path ∷ command ∷ argv) socket []).0
        ≡ first_failure (
            (console_ok socket, 2)
            ∷ (path == "-" || k.open_fifo, 3)
            ∷ (path == "-" || k.write_fifo, 4)
            ∷ (is_some (k.find_jail id), 5)
            ∷ (k.attach, 6)
            ∷ (k.chdir, 7)
            ∷ (is_some (k.look_path command), 8)
            ∷ (k.exec, 9)
            ∷ [])
  unfolding main enter await_start setup_console dup_stdio
  main_code_lem name id path command argv socket = ground arith

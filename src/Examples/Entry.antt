-- ===== src/Examples/Entry.antt =====
-- Runs of runj-entrypoint, of extension exec and of the search for a jail.
use runj.Prelude.{
  ◌≡◌, ◌≢◌, ◌⊎◌, refl, true, false, ℕ, ◌≤◌, String, some, none, List, [], ◌∷◌, ◌++◌, ok, err, ◌==◌,
  if◌then◌else◌, arith, All,
}
use runj.Text.Decimal.{itoa}
use runj.Runj.Exec.{ExecAnswers, exec_in}
use runj.Runj.Exec.Laws.{exec_lem, Ran}
use runj.Jail.Find.{find, find_number_lem, ask}
use runj.Jail.Iovec.{make_iovec, le_bytes32}
use runj.Entrypoint.{Act, Kernel, main, attach, chdir, exec}
use runj.Entrypoint.Confined.{main_lem, is_exec}
use runj.Entrypoint.Codes.{main_code_lem, first_failure, console_ok, is_some}
use runj.Entrypoint.Handshake.{
  System, Step, initial, closed, start, next, meet, rest, then_step, opening, writing, reading,
  running, started,
}
use runj.Entrypoint.Handshake.Met.{handshake_lem}
use runj.Entrypoint.Handshake.Ends.{run_ends, AtEnd}
use runj.Examples.Commands.{answers, running_world}

abbrev exec_answers : ExecAnswers
exec_answers = record {
  answers = answers;
  read_process = λ path. some (record { terminal = false; args = "ps" ∷ []; env = [] });
  stat = λ _. none;
  dial = true;
  unix_conn = true;
  conn_file = true;
  dup = some 7;
  look_path = true;
  exec = true;
}

exec_lem_example :
    (((exec_in exec_answers "/tmp/ps.json" "" "web" [] running_world).0 ≢ ok tt)
      × ((exec_in exec_answers "/tmp/ps.json" "" "web" [] running_world).1.effects ≡ []))
    ⊎ Ran exec_answers "/tmp/ps.json" "" "web" [] running_world
        (exec_in exec_answers "/tmp/ps.json" "" "web" [] running_world).1
exec_lem_example = exec_lem exec_answers "/tmp/ps.json" "" "web" [] running_world

abbrev kernel : Kernel
kernel = record {
  new_pty = true;
  send_fd = true;
  open_slave = true;
  setsid = true;
  set_tty = true;
  dup2 = λ _. true;
  open_fifo = true;
  write_fifo = true;
  find_jail = λ name. if name == "web" then some 3 else none;
  attach = true;
  chdir = true;
  look_path = λ command. some "/bin/sh";
  exec = true;
}

abbrev args : List String
args = "runj-entrypoint" ∷ "web" ∷ "-" ∷ "sh" ∷ "-l" ∷ []

main_test :
    main kernel args "" [] ≡ (ok tt, attach 3 ∷ chdir ∷ exec "/bin/sh" ("sh" ∷ "-l" ∷ []) ∷ [])
unfolding main
main_test = refl

main_lem_example :
    ((code : ℕ) × ((main kernel args "" []).0 ≡ err code)
      × All (λ x. is_exec x ≡ false) (main kernel args "" []).1)
    ⊎ ((jid : ℕ) × (program : String) × (t : List Act) × (kernel.find_jail "web" ≡ some jid)
        × (some "/bin/sh" ≡ some program)
        × ((main kernel args "" []).1
            ≡ t ++ attach jid ∷ chdir ∷ exec program ("sh" ∷ "-l" ∷ []) ∷ [])
        × All (λ x. is_exec x ≡ false) t)
main_lem_example = main_lem kernel "runj-entrypoint" "web" "-" "sh" ("-l" ∷ []) ""

main_code_lem_example :
    (main kernel args "" []).0
    ≡ first_failure (
        (console_ok kernel "", 2)
        ∷ (true, 3)
        ∷ (true, 4)
        ∷ (is_some (kernel.find_jail "web"), 5)
        ∷ (true, 6)
        ∷ (true, 7)
        ∷ (true, 8)
        ∷ (true, 9)
        ∷ [])
main_code_lem_example = main_code_lem kernel "runj-entrypoint" "web" "-" "sh" ("-l" ∷ []) ""

-- Start and the entrypoint have met.
abbrev met : System
met = record initial { entrypoint = writing; starter = reading }

handshake_lem_example :
    (met.starter ≡ started
      → (met.written ≡ true) × (met.fifo ≡ false) × (closed met.entrypoint ≡ true))
    × (met.starter ≡ opening → met.entrypoint ≢ running)
handshake_lem_example = handshake_lem met (next start (meet false))

run_ends_example :
    (1 ≤ 6)
    × (((u : System) → Step met u → ⊥)
        → (closed met.entrypoint ≡ true) × AtEnd met.starter met.entrypoint)
run_ends_example = run_ends met 1 (then_step (meet false) (rest met))

find_number_lem_example :
    find (itoa 5) ≡ ok (ask (make_iovec (106 ∷ 105 ∷ 100 ∷ 0 ∷ []) (some (le_bytes32 5)) 4))
find_number_lem_example = find_number_lem 5 (omega arith)

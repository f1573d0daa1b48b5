-- ===== src/Jail/Ps.antt =====
-- jail/ps.go: whether a jail runs, by the output of ps(1).
use runj.Prelude.{ℕ, Bool, true, false, Option, none, some, ltb, ◌==ℕ◌, if◌then◌else◌}

-- What a run of ps gives: an exit code other than 0 or another error of the run; otherwise the
-- number of processes in its output, `unparsed` if that is not JSON, `nil_result` if it is not
-- there.
pub data PsResult : Type 0 where
  exit_code : ℕ → PsResult
  not_run unparsed nil_result : PsResult
  processes : ℕ → PsResult

-- psCmd; `none` is an error. `ps` exits with 1 when there are no processes.
unfoldable pub ps_cmd : PsResult → Option Bool
ps_cmd (exit_code n) = if n ==ℕ 1 then some false else none
ps_cmd not_run = none
ps_cmd unparsed = none
ps_cmd nil_result = none
ps_cmd (processes n) = some (ltb 0 n)

-- ps of a pid, and of the jail of the container
pub record Ps : Type 0 where
  pub pid : ℕ → PsResult
  pub jail : PsResult

-- IsRunning of the jail of the container
unfoldable pub is_running : Ps → ℕ → Option Bool
unfolding ps_cmd
is_running ps pid =
    if ltb 0 pid
    then elim (ps_cmd (ps.pid pid)) [
      | none ↦ none
      | some ok ↦ if ok then some true else ps_cmd ps.jail
    ]
    else ps_cmd ps.jail

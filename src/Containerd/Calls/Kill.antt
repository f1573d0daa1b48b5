-- ===== src/Containerd/Calls/Kill.antt =====
-- What Kill and Wait do, on every branch.
use runj.Text.Decimal.{itoa}
use runj.Status.{status_running}
use runj.Containerd.Process.{ManagedProcess}
use runj.Containerd.Command.{kill_args, Host, exec_kill}
use runj.Containerd.Aux.{lookup, get_auxiliary}
use runj.Containerd.Shim.{run_command, act, Shim}
use runj.Containerd.Task.{kill_target, kill}
use runj.Prelude.{
  eq_iff, ◌==◌, ◌==ℕ◌, refl, inl, inr, Bool-cases, Option-cases, arith, ◌≢◌, ok, some, Bool, ◌⊎◌,
  ◌≡◌, String, ℕ,
}

-- Kill of a process that is registered, running and has a pid, or of the container where no exec
-- id is given.
abbrev pub Killable : String → String → ℕ → Shim → Type 0
Killable req_id exec_id pid s =
    (req_id ≡ s.id)
    × (((exec_id ≡ "") × (pid ≡ 0))
        ⊎ ((m : ManagedProcess) × (lookup exec_id s.auxiliary ≡ some m)
            × (m.state ≡ status_running)
            × (m.pid ≡ pid)
            × (pid ≢ 0)))

-- Kill either leaves the service as it is and fails, or it runs `runj kill` and nothing else, for the
-- container of the service, with the signal in decimal, and with the pid of the process that the
-- exec id names, which is registered, running and has a pid; without a pid where no exec id is given.
pub kill_lem :
    (h : Host) (req_id exec_id : String) (signal : ℕ) (all : Bool) (s : Shim)
    → ((kill h req_id exec_id signal all s).1 ≡ s)
        × ¬ ((kill h req_id exec_id signal all s).0 ≡ ok tt)
      ⊎ ((pid : ℕ) × Killable req_id exec_id pid s
          × ((kill h req_id exec_id signal all s).1
              ≡ act (run_command (kill_args s.id (itoa signal) all pid)) s))
unfolding kill kill_target get_auxiliary exec_kill
kill_lem h req_id exec_id signal all s = elim (Bool-cases (req_id == s.id)) [
  | inr other ↦ inl (ground arith, ground arith)
  | inl same ↦ elim (Bool-cases (exec_id == "")) [
    | inl no_exec ↦
        inr (
          0,
          ((eq_iff req_id s.id).0 same, inl ((eq_iff exec_id "").0 no_exec, refl)),
          ground arith,
        )
    | inr given ↦ elim (Option-cases (lookup exec_id s.auxiliary)) [
      | inl absent ↦ inl (ground arith, ground arith)
      | inr (m, there) ↦ elim (Bool-cases (m.state == status_running)) [
        | inr not_running ↦ inl (ground arith, ground arith)
        | inl running ↦ elim (Bool-cases (m.pid ==ℕ 0)) [
          | inl no_pid ↦ inl (ground arith, ground arith)
          | inr has_pid ↦
              let p : m.pid ≢ 0 = ground arith in
              inr (
                m.pid,
                (
                  (eq_iff req_id s.id).0 same,
                  inr (m, there, (eq_iff m.state status_running).0 running, refl, p),
                ),
                ground arith,
              )
        ]
      ]
    ]
  ]
]

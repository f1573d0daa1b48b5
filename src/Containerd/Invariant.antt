-- ===== src/Containerd/Invariant.antt =====
-- What holds of a service between two calls: a process has ended exactly where its channel is closed.
use runj.Prelude.{
  inr, inl, not, subst, Bool-cases, String, ◌≡◌, ◌≢◌, refl, true, Option, none, some, List, eq_iff,
  ◌==◌,
}
use runj.Status.{zero_not_created, zero_not_stopped, status_created, status_stopped}
use runj.Containerd.Process.{ManagedProcess, new_process}
use runj.Containerd.Shim.{Shim, new_shim}
use runj.Containerd.Aux.{
  primary_process, aux_process, Target, process_of, update, lookup, adjust, remove,
}
use runj.Containerd.Aux.Laws.{Option-injective, lookup-adjust, lookup-remove, map_option}

pub record ProcessOk (m : ManagedProcess) : Type 0 where
  pub ended : (m.state == status_stopped) ≡ not m.waitblock
  pub created_has_spec : (m.state == status_created) ≡ true → m.spec ≢ none

pub record Inv (s : Shim) : Type 0 where
  pub primary : ProcessOk s.primary
  pub auxiliary : (id : String) (m : ManagedProcess) → lookup id s.auxiliary ≡ some m → ProcessOk m
  pub events_open : s.events_open ≡ true

pub new_process-ProcessOk : ProcessOk new_process
new_process-ProcessOk = record {
  ended = zero_not_stopped;
  created_has_spec = λ h. cc zero_not_created;
}

-- A service that has just been made.
pub new_shim-Inv : Inv new_shim
unfolding lookup
new_shim-Inv = record {
  primary = new_process-ProcessOk;
  auxiliary = λ id m e. cc;
  events_open = refl;
}

mapped :
    (o : Option ManagedProcess) (f : ManagedProcess → ManagedProcess) (m : ManagedProcess)
    → map_option f o ≡ some m
    → ((n : ManagedProcess) → o ≡ some n → ProcessOk (f n))
    → ProcessOk m
mapped none f m e h = cc
mapped (some n) f m e h = subst ProcessOk (Option-injective e) (h n refl)

adjust-auxiliary :
    (l : List (String × ManagedProcess)) (k : String) (f : ManagedProcess → ManagedProcess)
    → ((id : String) (m : ManagedProcess) → lookup id l ≡ some m → ProcessOk m)
    → ((m : ManagedProcess) → lookup k l ≡ some m → ProcessOk (f m))
    → (id : String) (m : ManagedProcess) → lookup id (adjust k f l) ≡ some m
    → ProcessOk m
adjust-auxiliary l k f all at_k id m e = elim (Bool-cases (k == id)) [
  | inl same ↦
      mapped (lookup id l) f m (rw (lookup-adjust, same) at e) (rw (← (eq_iff k id).0 same) at_k)
  | inr other ↦ all id m (rw (lookup-adjust, other) at e)
]

-- A write to one process keeps the invariant if that process keeps it.
pub update-Inv :
    (t : Target) (f : ManagedProcess → ManagedProcess) (s : Shim)
    → Inv s
    → ((m : ManagedProcess) → process_of t s ≡ some m → ProcessOk (f m))
    → Inv (update t f s)
unfolding update process_of
update-Inv primary_process f s v h = record {
  primary = h s.primary refl;
  auxiliary = v.auxiliary;
  events_open = v.events_open;
}
update-Inv (aux_process id) f s v h = record {
  primary = v.primary;
  auxiliary = adjust-auxiliary s.auxiliary id f v.auxiliary h;
  events_open = v.events_open;
}

pub process_of-ProcessOk :
    (t : Target) (s : Shim) (m : ManagedProcess) → Inv s → process_of t s ≡ some m → ProcessOk m
unfolding process_of
process_of-ProcessOk primary_process s m v e = subst ProcessOk (Option-injective e) v.primary
process_of-ProcessOk (aux_process id) s m v e = v.auxiliary id m e

pub remove-Inv :
    (id : String) (s : Shim) → Inv s → Inv (record s { auxiliary = remove id s.auxiliary })
remove-Inv id s v = record {
  primary = v.primary;
  auxiliary = λ j m e. elim (Bool-cases (id == j)) [
    | inl same ↦ cc (rw (lookup-remove, same) at e)
    | inr other ↦ v.auxiliary j m (rw (lookup-remove, other) at e)
  ];
  events_open = v.events_open;
}

-- The invariant is of the processes and the channel.
pub same-Inv :
    {s t : Shim}
    → Inv s
    → t.primary ≡ s.primary
    → t.auxiliary ≡ s.auxiliary
    → t.events_open ≡ s.events_open
    → Inv t
same-Inv v p a o = record {
  primary = rw p v.primary;
  auxiliary = rw a v.auxiliary;
  events_open = rw o v.events_open;
}

-- ===== src/Containerd/Safety/Queries.antt =====
-- State, Kill, ResizePty, Wait and the deletion of the container are safe at every state that has
-- the invariant: they leave the processes alone.
use runj.Prelude.{ℕ, String, Bool, arith}
use runj.Containerd.Shim.{Shim}
use runj.Containerd.Command.{Host, exec_state, exec_kill, exec_delete}
use runj.Containerd.Task.{
  state, kill, wait, resize_pty, state_aux, state_primary, kill_target, console_of, waited_process,
  resize_console, delete_container,
}
use runj.Containerd.Aux.{get_auxiliary}
use runj.Containerd.Invariant.{Inv, same-Inv}
use runj.Containerd.Safety.{SafeAt}

module _ (h : Host) (s : Shim) (v : Inv s) where
  pub kill-SafeAt :
      (req_id exec_id : String) (signal : ℕ) (all : Bool)
      → SafeAt (kill h req_id exec_id signal all) s
  unfolding kill kill_target get_auxiliary exec_kill
  kill-SafeAt req_id exec_id signal all = record {
    no_panic = ground arith;
    kept = same-Inv v (ground arith) (ground arith) (ground arith);
  }

  pub delete_container-SafeAt : (path : String) → SafeAt (delete_container h path) s
  unfolding delete_container exec_kill exec_delete
  delete_container-SafeAt path = record {
    no_panic = ground arith;
    kept = same-Inv v (ground arith) (ground arith) (ground arith);
  }

  pub state-SafeAt : (req_id exec_id : String) → SafeAt (state h req_id exec_id) s
  unfolding state state_aux state_primary get_auxiliary exec_state
  state-SafeAt req_id exec_id = record {
    no_panic = ground arith;
    kept = same-Inv v (ground arith) (ground arith) (ground arith);
  }

  pub resize_pty-SafeAt :
      (req_id exec_id : String) (width height : ℕ)
      → SafeAt (resize_pty h req_id exec_id width height) s
  unfolding resize_pty console_of resize_console get_auxiliary
  resize_pty-SafeAt req_id exec_id width height = record {
    no_panic = ground arith;
    kept = same-Inv v (ground arith) (ground arith) (ground arith);
  }

module _ (s : Shim) (v : Inv s) where
  pub wait-SafeAt : (req_id exec_id : String) → SafeAt (wait req_id exec_id) s
  unfolding wait waited_process get_auxiliary
  wait-SafeAt req_id exec_id = record {
    no_panic = ground arith;
    kept = same-Inv v (ground arith) (ground arith) (ground arith);
  }

-- ===== src/Containerd/Create/Unwind.antt =====
-- What Create cleans up when it fails.
use runj.Containerd.Command.{Host}
use runj.Containerd.Process.{Stdio}
use runj.Containerd.Io.{setup_io}
use runj.Containerd.Create.{CreateRequest}
use runj.Containerd.Create.Ran.{opened, Ran}
use runj.Containerd.Shim.{Shim, Action, Error, panicked, close_handle, recursive_unmount}
use runj.Prelude.{ℕ, String, ok, err, ◌≡◌, ◌++◌, Result, List, [], ◌∷◌, map}

module _ (h : Host) (req : CreateRequest) (rootfs : String) where
  -- The clean-ups of an error: the fifos that have been opened, and then the rootfs.
  abbrev clean_ups : List Action
  clean_ups =
      map close_handle (opened h (req.stdin ∷ req.stdout ∷ req.stderr ∷ []))
      ++ recursive_unmount rootfs ∷ []

  -- What is cleaned up, by the result: while a panic unwinds, the clean-ups see no error.
  abbrev pub cleaned_up : Result Error ℕ → List Action
  cleaned_up (ok pid) = []
  cleaned_up (err panicked) = []
  cleaned_up (err e) = clean_ups

  abbrev io : Stdio × Result Error (Unit {0})
  io = setup_io h req.stdin req.stdout req.stderr

  -- What is done from the state `s` on: runs of the command, and clean-ups.
  abbrev pub Does : Shim → Result Error ℕ × Shim → Type 0
  Does s (r, v) =
      (ran : List Action) × Ran h req r ran × (v.actions ≡ s.actions ++ (ran ++ cleaned_up r))

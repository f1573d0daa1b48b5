-- ===== src/Examples/Handles.antt =====
-- Two goroutines remove one jail: the first has returned, the second is refused.
use runj.Prelude.{◌≡◌, ◌≤◌, true, false, [], ◌∷◌}
use runj.Jail.Handle.{
  System, Reachable, start, next, move, lock, refuse, go_on, destroy, mark, unlock_succeeding,
  locking, succeeded, failing,
}
use runj.Jail.Handle.Once.{remove_once, total, destroyed, returned, busy}

abbrev refused : System
refused = record { callers = succeeded ∷ failing ∷ []; locked = true; removed = true }

refused_run : Reachable 2 refused
refused_run =
    next
      (next
        (next
          (next
            (next
              (next (next start (move [] (locking ∷ []) (lock false)))
                (move [] (locking ∷ []) (go_on true)))
              (move [] (locking ∷ []) (destroy true false)))
            (move [] (locking ∷ []) (mark true false)))
          (move [] (locking ∷ []) (unlock_succeeding true true)))
        (move (succeeded ∷ []) [] (lock true)))
      (move (succeeded ∷ []) [] (refuse true))

remove_once_example :
    (total destroyed refused.callers ≤ 1)
    × (total returned refused.callers ≤ 1)
    × (total returned refused.callers ≡ 1
        → (refused.removed ≡ true) × (total busy refused.callers ≡ 0))
remove_once_example = remove_once 2 refused refused_run

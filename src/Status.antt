-- ===== src/Status.antt =====
-- state/state.go: the statuses of a container. The zero value, a text, is none of them.
use runj.Prelude.{true≢false, sym, eq_iff, ◌≢◌, String, ◌≡◌, refl, true, false, ◌==◌}

abbrev pub Status : Type 0
Status = String

abbrev pub status_creating : Status
status_creating = "creating"

abbrev pub status_created : Status
status_created = "created"

abbrev pub status_running : Status
status_running = "running"

abbrev pub status_stopped : Status
status_stopped = "stopped"

-- The statuses are four texts, and none of them is the zero value.
pub created_not_stopped : (status_created == status_stopped) ≡ false
created_not_stopped = refl

pub running_not_stopped : (status_running == status_stopped) ≡ false
running_not_stopped = refl

pub stopped_stopped : (status_stopped == status_stopped) ≡ true
stopped_stopped = refl

pub running_not_created : (status_running == status_created) ≡ false
running_not_created = refl

pub stopped_not_created : (status_stopped == status_created) ≡ false
stopped_not_created = refl

pub zero_not_stopped : ("" == status_stopped) ≡ false
zero_not_stopped = refl

pub zero_not_created : ("" == status_created) ≡ false
zero_not_created = refl

pub running≢created : status_running ≢ status_created
running≢created e = true≢false (sym ((eq_iff status_running status_created).1 e))

pub running≢creating : status_running ≢ status_creating
running≢creating e = true≢false (sym ((eq_iff status_running status_creating).1 e))

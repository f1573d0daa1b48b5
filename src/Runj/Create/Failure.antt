-- ===== src/Runj/Create/Failure.antt =====
-- What a create command that fails leaves behind.
use runj.Prelude.{◌≡◌, none, false}
use runj.Runj.Store.{World}
use runj.Runj.Create.Stages
use runj.Runj.Create.Trace.{Trace}

-- There is no container.
abbrev pub Absent : World → Type 0
Absent w =
    (w.state_file ≡ false)
    × (w.state ≡ none)
    × (w.config ≡ none)
    × (w.extension ≡ none)
    × (w.fifo ≡ false)

-- ===== src/Runj/Commands/Files.antt =====
-- The loop over the hooks leaves the files of the container alone.
use runj.Prelude.{◌∙◌, ◌≡◌, refl, inl, inr, List, [], ◌∷◌, Bool-cases, is_empty}
use runj.Oci
use runj.Runj.Store.{Output, World}
use runj.Runj.Store.Laws.{Along, Along-bind}
use runj.Runj.Commands.{hook_run, Answers, run_hooks}

-- The files are the same.
abbrev pub SameFiles : World → World → Type 0
SameFiles u v =
    (v.state_file ≡ u.state_file)
    × (v.state ≡ u.state)
    × (v.config ≡ u.config)
    × (v.extension ≡ u.extension)
    × (v.fifo ≡ u.fifo)

SameFiles-trans : (u v w : World) → SameFiles u v → SameFiles v w → SameFiles u w
SameFiles-trans u v w (a, b, c, d, e) (p, q, r, s, t) = (p ∙ a, q ∙ b, r ∙ c, s ∙ d, t ∙ e)

hook_run_files :
    (a : Answers) (k : Oci.Hook) (o : Output) (w : World) → SameFiles w (hook_run a k o w).1
unfolding hook_run
hook_run_files a k o w = elim (Bool-cases (is_empty k.args)) [
  | inl panics ↦ rw panics (refl, refl, refl, refl, refl)
  | inr runs ↦ rw runs (refl, refl, refl, refl, refl)
]

pub run_hooks_files :
    (a : Answers) (ks : List Oci.Hook) (o : Output) → Along SameFiles (run_hooks a ks o)
unfolding run_hooks
run_hooks_files a [] o w = (refl, refl, refl, refl, refl)
run_hooks_files a (k ∷ ks) o w =
    Along-bind SameFiles SameFiles-trans (hook_run a k o) (λ _. run_hooks a ks o)
      (hook_run_files a k o) (λ _. run_hooks_files a ks o) w

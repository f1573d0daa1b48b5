-- ===== src/Demo/Tar.antt =====
-- demo/rootfs.go: makeTar.
use runj.Prelude.{Bool, true, Option, none, some, List, [], ◌∷◌, ◌++◌, not, false}
use runj.Demo.{
  Bytes, Place, Archive, Visit, unreadable, directory, file, Site, Make, fails_unless, modify, pure,
  gets, deferred, ◌>>=◌, ◌>>◌,
}

-- The writer's Close, and what has been written into the output.
abbrev add_entry : Place → Bytes → Option Archive → Option Archive
add_entry p b none = none
add_entry p b (some a) = some (record a { entries = a.entries ++ (p, b) ∷ [] })

abbrev end_with : Bool → Option Archive → Option Archive
end_with done none = none
end_with done (some a) = some (record a { whole = done })

abbrev is_none {ℓ} : {A : Type ℓ} → Option A → Bool
is_none none = true
is_none (some a) = false

module _ (o : Site) where
  -- The function that Walk calls, without an error, for a file; one that is copied in part is not
  -- among the entries.
  unfoldable pub add_file : Place → Bytes → Make (Unit {0})
  add_file p b = do
    fails_unless (o.write_header p)
    fails_unless (o.open_file p)
    fails_unless (o.copy p)
    modify (λ w. record w { out = add_entry p b w.out })

  -- filepath.Walk with that function: the first error ends it.
  unfoldable pub add_all : List Visit → Make (Unit {0})
  unfolding add_file
  add_all [] = pure tt
  add_all (unreadable ∷ vs) = fails_unless (not true)
  add_all (directory ∷ vs) = add_all vs
  add_all (file p b ∷ vs) = add_file p b >>= λ _. add_all vs

  -- makeTar. Its deferred function tests the `err` of the OpenFile, which is nil once there is
  -- something to remove, so that nothing is removed; the error of the writer's Close is dropped.
  unfoldable pub make_tar : Make (Unit {0})
  unfolding add_all
  make_tar = do
    absent ← gets (λ w. is_none w.out)
    fails_unless absent
    fails_unless o.create_out
    modify (λ w. record w { out = some (record { entries = []; whole = not true }) })
    image ← gets (λ w. w.image)
    deferred (λ w. record w { out = end_with o.close_tar w.out }) (add_all (o.walk image))

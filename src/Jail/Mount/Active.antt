-- ===== src/Jail/Mount/Active.antt =====
-- Which mounts are in place after Mount and Unmount.
use runj.Oci.{Mount}
use runj.Jail.Mount.{
  not_created, create_if_not_exists, point_of, made_dir, made_file, mount, unmount, not_unmounted,
  no_source, with_source, not_mounted, destination, unmounted, Mount, MountError, mounted,
  mount_loop, unmount_each, Change, prepare_point, Fs,
}
use runj.Prelude.{
  ap, ◌∙◌, reverse, false, Bool, ◌≢◌, none, refl, [], map, eq_refl, true, ◌==◌, arith, ◌++◌, ◌≡◌,
  if◌then◌else◌, Option, List, String, some, ◌∷◌,
}

pop : String → List String → List String
pop d [] = []
pop d (x ∷ st) = if x == d then st else x ∷ pop d st

-- The mount points after some changes, the latest first.
unfoldable pub active : List Change → List String → List String
unfolding pop
active [] st = st
active (mounted m d ∷ cs) st = active cs (d ∷ st)
active (unmounted d ∷ cs) st = active cs (pop d st)
active (made_dir d ∷ cs) st = active cs st
active (made_file d ∷ cs) st = active cs st

active-append :
    (cs ds : List Change) (st : List String) → active (cs ++ ds) st ≡ active ds (active cs st)
unfolding active
active-append [] ds st = refl
active-append (mounted m d ∷ cs) ds st = active-append cs ds (d ∷ st)
active-append (unmounted d ∷ cs) ds st = active-append cs ds (pop d st)
active-append (made_dir d ∷ cs) ds st = active-append cs ds st
active-append (made_file d ∷ cs) ds st = active-append cs ds st

-- Some mounts made one after another.
unfoldable pub onto : List String → List String → List String
onto [] st = st
onto (d ∷ ds) st = onto ds (d ∷ st)

onto-append : (ds xs st : List String) → onto ds (xs ++ st) ≡ onto ds xs ++ st
unfolding onto
onto-append [] xs st = refl
onto-append (d ∷ ds) xs st = onto-append ds (d ∷ xs) st

pub onto-reverse : (ds st : List String) → onto ds st ≡ reverse ds ++ st
unfolding onto
onto-reverse ds st = onto-append ds [] st

module _ (fs : Fs) where
  -- Taking down the latest mounts in their order.
  active-unmount_each :
      (ds st : List String)
      → ((d : String) → fs.unmount d ≡ true)
      → active (unmount_each fs ds) (ds ++ st) ≡ st
  unfolding active unmount_each pop
  active-unmount_each [] st ok_unmount = refl
  active-unmount_each (d ∷ ds) st ok_unmount =
      rw (ok_unmount d, active, eq_refl d) (active-unmount_each ds st ok_unmount)

  prepare_point-active :
      (m : Mount) (dest : String) (st : List String) → active (prepare_point fs m dest).1 st ≡ st
  unfolding prepare_point create_if_not_exists point_of active
  prepare_point-active m dest st = ground arith

  pub prepare_point-error :
      (m : Mount) (dest : String) → (prepare_point fs m dest).0 ≢ some not_mounted
  unfolding prepare_point create_if_not_exists point_of
  prepare_point-error m dest = ground arith

  -- What the loop has done, from the mounts `unwind` that it made and the mounts `st` before it.
  unfoldable pub Outcome :
      List String → List String → List String → Option MountError × List Change → Type 0
  unfolding active onto
  Outcome points unwind st (none, cs) = active cs (unwind ++ st) ≡ onto points (unwind ++ st)
  Outcome points unwind st (some not_mounted, cs) = active cs (unwind ++ st) ≡ st
  Outcome points unwind st (some _, cs) =
      (before after : List String) × (points ≡ before ++ after)
      × (active cs (unwind ++ st) ≡ onto before (unwind ++ st))

  module _ (u : (d : String) → fs.unmount d ≡ true) where
    Outcome-mounted :
        (point : List Change) (m : Mount) (d : String) (points unwind st : List String)
        (r : Option MountError × List Change)
        → active point (unwind ++ st) ≡ unwind ++ st
        → Outcome points (d ∷ unwind) st r
        → Outcome (d ∷ points) unwind st (r.0, point ++ mounted m d ∷ r.1)
    unfolding Outcome active onto
    Outcome-mounted point m d points unwind st (none, cs) p o = rw (active-append, p) o
    Outcome-mounted point m d points unwind st (some not_mounted, cs) p o = rw (active-append, p) o
    Outcome-mounted point m d points unwind st (some no_source, cs) p (before, after, e, o) =
        (d ∷ before, after, ap (λ l. d ∷ l) e, rw (active-append, p) o)
    Outcome-mounted point m d points unwind st (some not_created, cs) p (before, after, e, o) =
        (d ∷ before, after, ap (λ l. d ∷ l) e, rw (active-append, p) o)
    Outcome-mounted point m d points unwind st (some not_unmounted, cs) p (before, after, e, o) =
        (d ∷ before, after, ap (λ l. d ∷ l) e, rw (active-append, p) o)

    step-Outcome :
        (point : Option MountError × List Change) (can_mount : Bool) (m : Mount) (d : String)
        (points unwind st : List String) (r : Option MountError × List Change)
        → active point.1 (unwind ++ st) ≡ unwind ++ st
        → point.0 ≢ some not_mounted
        → Outcome points (d ∷ unwind) st r
        → Outcome (d ∷ points) unwind st (elim point.0 [
          | some e ↦ (some e, point.1)
          | none ↦
              if can_mount
              then (r.0, point.1 ++ mounted m d ∷ r.1)
              else (some not_mounted, point.1 ++ unmount_each fs unwind)
        ])
    unfolding Outcome
    step-Outcome (none, cs) true m d points unwind st r p n o =
        Outcome-mounted cs m d points unwind st r p o
    step-Outcome (none, cs) false m d points unwind st r p n o =
        rw (active-append, p) (active-unmount_each unwind st u)
    step-Outcome (some not_mounted, cs) b m d points unwind st r p n o = absurd (n refl)
    step-Outcome (some no_source, cs) b m d points unwind st r p n o = ([], d ∷ points, refl, p)
    step-Outcome (some not_created, cs) b m d points unwind st r p n o = ([], d ∷ points, refl, p)
    step-Outcome (some not_unmounted, cs) b m d points unwind st r p n o = ([], d ∷ points, refl, p)

    mount_loop-Outcome :
        (root : String) (ms : List Mount) (unwind st : List String)
        → Outcome (map (destination root) ms) unwind st (mount_loop fs root ms unwind)
    unfolding Outcome mount_loop active onto
    mount_loop-Outcome root [] unwind st = refl
    mount_loop-Outcome root (m ∷ ms) unwind st =
        let d = destination root m in
        step-Outcome (prepare_point fs (with_source m) d) (fs.mount (with_source m) d)
          (with_source m) d (map (destination root) ms) unwind st
          (mount_loop fs root ms (d ∷ unwind))
          (prepare_point-active (with_source m) d (unwind ++ st))
          (prepare_point-error (with_source m) d) (mount_loop-Outcome root ms (d ∷ unwind) st)

    -- The mount points after Mount
    mount-active :
        (root : String) (ms : List Mount) (st : List String)
        → Outcome (map (destination root) ms) [] st (mount fs root ms)
    unfolding mount
    mount-active root ms st = mount_loop-Outcome root ms [] st

    unmount_each-onto :
        (ds st : List String) → active (unmount_each fs (reverse ds)) (onto ds st) ≡ st
    unmount_each-onto ds st = rw (onto-reverse ds st) (active-unmount_each (reverse ds) st u)

    Outcome-none :
        (r : Option MountError × List Change) (points unwind st : List String)
        → Outcome points unwind st r
        → r.0 ≡ none
        → active r.1 (unwind ++ st) ≡ onto points (unwind ++ st)
    unfolding Outcome
    Outcome-none (none, cs) points unwind st o e = o
    Outcome-none (some x, cs) points unwind st o e = cc

    -- Unmount after a Mount that succeeded restores the mounts, where unmounting works.
    pub unmount-mount :
        (root : String) (ms : List Mount) (st : List String)
        → (mount fs root ms).0 ≡ none
        → active ((mount fs root ms).1 ++ (unmount fs root ms).1) st ≡ st
    unfolding unmount Outcome
    unmount-mount root ms st e =
        active-append (mount fs root ms).1 (unmount fs root ms).1 st
        ∙ ap (active (unmount fs root ms).1) (
            Outcome-none (mount fs root ms) (map (destination root) ms) [] st
              (mount-active root ms st) e)
        ∙ unmount_each-onto (map (destination root) ms) st

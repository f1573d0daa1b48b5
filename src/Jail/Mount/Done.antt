-- ===== src/Jail/Mount/Done.antt =====
-- What Mount of jail/mount.go has done to the host, in order, on each of its results.
use runj.Oci.{Mount}
use runj.Jail.Mount.{
  not_created, create_if_not_exists, point_of, made_dir, made_file, mount, not_unmounted, no_source,
  with_source, not_mounted, destination, unmounted, MountError, mounted, mount_loop, unmount_each,
  Change, prepare_point, Fs,
}
use runj.Jail.Mount.Active.{onto, prepare_point-error}
use runj.Prelude.{
  ap, false, Bool, ◌≢◌, none, refl, [], map, true, arith, ◌++◌, ◌≡◌, All, Option, List, String,
  some, ◌∷◌, if◌then◌else◌,
}

-- The changes to the mounts, without those to the files under them.
unfoldable pub mount_changes : List Change → List Change
mount_changes [] = []
mount_changes (mounted m d ∷ cs) = mounted m d ∷ mount_changes cs
mount_changes (unmounted d ∷ cs) = unmounted d ∷ mount_changes cs
mount_changes (made_dir d ∷ cs) = mount_changes cs
mount_changes (made_file d ∷ cs) = mount_changes cs

mount_changes-append :
    (cs ds : List Change) → mount_changes (cs ++ ds) ≡ mount_changes cs ++ mount_changes ds
unfolding mount_changes
mount_changes-append [] ds = refl
mount_changes-append (mounted m d ∷ cs) ds = ap (λ l. mounted m d ∷ l) (mount_changes-append cs ds)
mount_changes-append (unmounted d ∷ cs) ds = ap (λ l. unmounted d ∷ l) (mount_changes-append cs ds)
mount_changes-append (made_dir d ∷ cs) ds = mount_changes-append cs ds
mount_changes-append (made_file d ∷ cs) ds = mount_changes-append cs ds

module _ (fs : Fs) (root : String) where
  -- The mount that the code makes of an entry of the spec.
  abbrev pub entry : Mount → Change
  entry m = mounted (with_source m) (destination root m)

  -- What preparing the mount point of an entry returns
  abbrev pub prepared : Mount → Option MountError
  prepared m = (prepare_point fs (with_source m) (destination root m)).0

  -- Its mount point can be had, and mount(8) succeeds.
  abbrev pub Mounts : Mount → Type 0
  Mounts m = (prepared m ≡ none) × (fs.mount (with_source m) (destination root m) ≡ true)

  -- From the mount points `unwind` before: every entry is mounted; or one of them fails in mount(8),
  -- after which those before it are unmounted, the latest first; or its point cannot be had.
  unfoldable pub Ends : List Mount → List String → Option MountError × List Change → Type 0
  unfolding onto
  Ends ms unwind (none, cs) = All Mounts ms × (mount_changes cs ≡ map entry ms)
  Ends ms unwind (some not_mounted, cs) =
      (before : List Mount) × (m : Mount) × (after : List Mount) × (ms ≡ before ++ m ∷ after)
      × All Mounts before
      × (prepared m ≡ none)
      × (fs.mount (with_source m) (destination root m) ≡ false)
      × (mount_changes cs
          ≡ map entry before ++ map unmounted (onto (map (destination root) before) unwind))
  Ends ms unwind (some e, cs) =
      (before : List Mount) × (m : Mount) × (after : List Mount) × (ms ≡ before ++ m ∷ after)
      × All Mounts before
      × (prepared m ≡ some e)
      × (mount_changes cs ≡ map entry before)

  prepare_point-mount_changes :
      (m : Mount) (d : String) → mount_changes (prepare_point fs m d).1 ≡ []
  unfolding prepare_point create_if_not_exists point_of mount_changes
  prepare_point-mount_changes m d = ground arith

  mount_changes-unmount_each :
      (ds : List String)
      → ((d : String) → fs.unmount d ≡ true)
      → mount_changes (unmount_each fs ds) ≡ map unmounted ds
  unfolding mount_changes unmount_each
  mount_changes-unmount_each [] u = refl
  mount_changes-unmount_each (d ∷ ds) u =
      rw (u d, mount_changes) (ap (λ l. unmounted d ∷ l) (mount_changes-unmount_each ds u))

  Ends-mounted :
      (point : List Change) (m : Mount) (ms : List Mount) (unwind : List String)
      (r : Option MountError × List Change)
      → mount_changes point ≡ []
      → Mounts m
      → Ends ms (destination root m ∷ unwind) r
      → Ends (m ∷ ms) unwind (r.0, point ++ entry m ∷ r.1)
  unfolding Ends mount_changes onto
  Ends-mounted point m ms unwind (none, cs) p k (a, o) =
      ((k, a), rw (mount_changes-append, p) (ap (λ l. entry m ∷ l) o))
  Ends-mounted point m ms unwind (some not_mounted, cs) p k (before, x, after, e, a, y, n, o) = (
    m ∷ before,
    x,
    after,
    ap (λ l. m ∷ l) e,
    (k, a),
    y,
    n,
    rw (mount_changes-append, p) (ap (λ l. entry m ∷ l) o),
  )
  Ends-mounted point m ms unwind (some no_source, cs) p k (before, x, after, e, a, y, o) = (
    m ∷ before,
    x,
    after,
    ap (λ l. m ∷ l) e,
    (k, a),
    y,
    rw (mount_changes-append, p) (ap (λ l. entry m ∷ l) o),
  )
  Ends-mounted point m ms unwind (some not_created, cs) p k (before, x, after, e, a, y, o) = (
    m ∷ before,
    x,
    after,
    ap (λ l. m ∷ l) e,
    (k, a),
    y,
    rw (mount_changes-append, p) (ap (λ l. entry m ∷ l) o),
  )
  Ends-mounted point m ms unwind (some not_unmounted, cs) p k (before, x, after, e, a, y, o) = (
    m ∷ before,
    x,
    after,
    ap (λ l. m ∷ l) e,
    (k, a),
    y,
    rw (mount_changes-append, p) (ap (λ l. entry m ∷ l) o),
  )

  module _ (u : (d : String) → fs.unmount d ≡ true) where
    step-Ends :
        (point : Option MountError × List Change) (b : Bool) (m : Mount) (ms : List Mount)
        (unwind : List String) (r : Option MountError × List Change)
        → mount_changes point.1 ≡ []
        → point.0 ≢ some not_mounted
        → prepared m ≡ point.0
        → fs.mount (with_source m) (destination root m) ≡ b
        → Ends ms (destination root m ∷ unwind) r
        → Ends (m ∷ ms) unwind (elim point.0 [
          | some e ↦ (some e, point.1)
          | none ↦
              if b
              then (r.0, point.1 ++ entry m ∷ r.1)
              else (some not_mounted, point.1 ++ unmount_each fs unwind)
        ])
    unfolding Ends onto
    step-Ends (none, cs) true m ms unwind r p n e h o = Ends-mounted cs m ms unwind r p (e, h) o
    step-Ends (none, cs) false m ms unwind r p n e h o = (
      [],
      m,
      ms,
      refl,
      tt,
      e,
      h,
      rw (mount_changes-append, p) (mount_changes-unmount_each unwind u),
    )
    step-Ends (some not_mounted, cs) b m ms unwind r p n e h o = absurd (n refl)
    step-Ends (some no_source, cs) b m ms unwind r p n e h o = ([], m, ms, refl, tt, e, p)
    step-Ends (some not_created, cs) b m ms unwind r p n e h o = ([], m, ms, refl, tt, e, p)
    step-Ends (some not_unmounted, cs) b m ms unwind r p n e h o = ([], m, ms, refl, tt, e, p)

    mount_loop-Ends :
        (ms : List Mount) (unwind : List String) → Ends ms unwind (mount_loop fs root ms unwind)
    unfolding Ends mount_loop mount_changes
    mount_loop-Ends [] unwind = (tt, refl)
    mount_loop-Ends (m ∷ ms) unwind =
        let d = destination root m in
        step-Ends (prepare_point fs (with_source m) d) (fs.mount (with_source m) d) m ms unwind
          (mount_loop fs root ms (d ∷ unwind)) (prepare_point-mount_changes (with_source m) d)
          (prepare_point-error fs (with_source m) d) refl refl (mount_loop-Ends ms (d ∷ unwind))

    -- Mount, where unmounting works. If it succeeds, every entry of the spec is mounted at its point
    -- below the root, in order, an entry without a source with the source `null`, and nothing is
    -- unmounted. If mount(8) fails for an entry, those before it have been mounted, and after that
    -- unmounted, the latest first. If the source of a nullfs mount or its mount point cannot be had,
    -- those before it have been mounted, and nothing is unmounted: they stay.
    pub mount_lem : (ms : List Mount) → Ends ms [] (mount fs root ms)
    unfolding mount
    mount_lem ms = mount_loop-Ends ms []

-- ===== src/Demo/Delivered.antt =====
-- The oci-image command where it succeeds.
use runj.Prelude.{
  ℕ, String, true, ◌≡◌, ◌≢◌, refl, subst, ap, sym, ◌∙◌, ◌⊎◌, inl, inr, Option, none, some, [], ◌∷◌,
  Result, ok, if◌then◌else◌, arith, ◌≤◌, ◌==◌, eq_iff, Option-cases, Bool-cases,
}
use runj.Demo.{Bytes, World, Archive, Site, Failure, fails_unless, deferred, ◌>>◌}
use runj.Demo.Image.{make_image}
use runj.Demo.Command.{
  oci_image, image_command, image_args, fetch, make_downloaded, url, download_rootfs, body_of,
  download_image, copied, overlay,
}
use runj.Demo.Packed.{bind-eq-ok, check-eq-ok}
use runj.Demo.Shape.{IsImage, Walks, arch_of, Makes}
use runj.Demo.Made.{make_image_lem}

overlay-nil : (b : Bytes) → overlay b [] ≡ b
unfolding overlay
overlay-nil [] = refl
overlay-nil (x ∷ b) = refl

module _ (o : Site) (machine arch version input : String) where
  -- Where the rootfs comes from: a download for the three flags, with a status of success, or the
  -- file of the input flag, without them.
  abbrev pub Source : Bytes → Type 0
  Source bytes =
      ((input ≡ "")
        × (machine ≢ "")
        × (arch ≢ "")
        × (version ≢ "")
        × ((status : ℕ) × (o.get (url machine arch version) ≡ some (status, bytes))
            × (200 ≤ status)
            × (status ≤ 299)))
      ⊎ ((input ≢ "")
          × (machine ≡ "")
          × (arch ≡ "")
          × (version ≡ "")
          × (o.read_input input ≡ some bytes))

  args_lem :
      image_args machine arch version input ≡ true
      → ((input ≡ "") × (machine ≢ "") × (arch ≢ "") × (version ≢ ""))
        ⊎ ((input ≢ "") × (machine ≡ "") × (arch ≡ "") × (version ≡ ""))
  unfolding image_args
  args_lem h = ground (arith, eq_iff input "", eq_iff machine "", eq_iff arch "", eq_iff version "")

  body_lem :
      (answer : Option (ℕ × Bytes)) (bytes : Bytes)
      → body_of answer ≡ some bytes
      → (status : ℕ) × (answer ≡ some (status, bytes)) × (200 ≤ status) × (status ≤ 299)
  unfolding body_of
  body_lem none bytes h = cc
  body_lem (some (status, body)) bytes h = (status, ground arith, ground arith, ground arith)

  fetch_lem :
      (w w' : World)
      → fetch o machine arch version w ≡ (ok tt, w')
      → (bytes : Bytes) × (download_rootfs o machine arch version ≡ some bytes)
        × (w' ≡ record w { download = some bytes })
  unfolding fetch download_image copied
  fetch_lem w w' h = elim (Option-cases (download_rootfs o machine arch version)) [
    | inl e ↦ ground (arith, e)
    | inr (bytes, e) ↦ (bytes, e, ground (arith, e, overlay-nil bytes))
  ]

  -- The output file is new, and holds the image of a rootfs from that source.
  abbrev pub Delivered : World → World → Type 0
  Delivered w w' =
      (bytes : Bytes) × (a : Archive) × Source bytes
      × (w.out ≡ none)
      × (w'.out ≡ some a)
      × IsImage o (arch_of o arch) bytes a

  downloaded-Source :
      (bytes : Bytes)
      → input ≡ ""
      → image_args machine arch version input ≡ true
      → download_rootfs o machine arch version ≡ some bytes
      → Source bytes
  unfolding download_rootfs
  downloaded-Source bytes i r d = elim (args_lem r) [
    | inr (n, _, _, _) ↦ absurd (n i)
    | inl (_, m, a, v) ↦ inl (i, m, a, v, body_lem (o.get (url machine arch version)) bytes d)
  ]

  read-Source :
      (bytes : Bytes)
      → input ≢ ""
      → image_args machine arch version input ≡ true
      → o.read_input input ≡ some bytes
      → Source bytes
  read-Source bytes n r d = elim (args_lem r) [
    | inl (i, _, _, _) ↦ absurd (n i)
    | inr (_, m, a, v) ↦ inr (n, m, a, v, d)
  ]

  module _ (walks : Walks o) where
    make_downloaded_lem :
        (w w' : World)
        → make_downloaded o machine arch version w ≡ (ok tt, w')
        → (bytes : Bytes) × (download_rootfs o machine arch version ≡ some bytes)
          × (v : World) × (v.out ≡ w.out)
          × Makes o (arch_of o arch) bytes v w'
    unfolding make_downloaded
    make_downloaded_lem w w' h =
        let (_, v, u, h1) = bind-eq-ok (fetch o machine arch version) _ w w' tt h in
        let (bytes, e, q) = fetch_lem w v u in
        let (bytes', e', _, m) =
          make_image_lem o walks (if o.open_download then v.download else none) arch v w' h1 in
        let same : bytes' ≡ bytes = ground (arith, e', q) in
        (
          bytes,
          e,
          v,
          ap (λ (y : World). y.out) q,
          subst (λ b. Makes o (arch_of o arch) b v w') same m,
        )

    downloaded-Delivered :
        (w w' : World)
        → input ≡ ""
        → image_args machine arch version input ≡ true
        → (fails_unless o.create_download
              >> deferred
                  (λ v. record v { download = none })
                  (make_downloaded o machine arch version))
            w
          ≡ (ok tt, w')
        → Delivered w w'
    downloaded-Delivered w w' i r h =
        let (_, h1) = check-eq-ok o.create_download _ w w' tt h in
        let z = make_downloaded o machine arch version w in
        let (bytes, e, v, v_out, m) = make_downloaded_lem w z.1 (ground (arith, h1)) in
        let (a, no_out, out, _, made) = m in
        let q = ap (λ (y : Result Failure (Unit {0}) × World). y.1.out) h1 in
        (bytes, a, downloaded-Source bytes i r e, sym v_out ∙ no_out, sym q ∙ out, made)

    read-Delivered :
        (w w' : World)
        → input ≢ ""
        → image_args machine arch version input ≡ true
        → make_image o (o.read_input input) arch w ≡ (ok tt, w')
        → Delivered w w'
    read-Delivered w w' n r h =
        let (bytes, e, _, m) = make_image_lem o walks (o.read_input input) arch w w' h in
        let (a, no_out, out, _, made) = m in (bytes, a, read-Source bytes n r e, no_out, out, made)

    command-Delivered :
        (w w' : World)
        → image_args machine arch version input ≡ true
        → image_command o machine arch version input w ≡ (ok tt, w')
        → Delivered w w'
    unfolding image_command
    command-Delivered w w' r h = elim (Bool-cases (input == "")) [
      | inl e ↦ downloaded-Delivered w w' ((eq_iff input "").0 e) r (rw e at h)
      | inr e ↦ read-Delivered w w' (λ i. cc (e, (eq_iff input "").1 i)) r (rw e at h)
    ]

    pub oci_image-Delivered :
        (w w' : World) → oci_image o machine arch version input w ≡ (ok tt, w') → Delivered w w'
    unfolding oci_image
    oci_image-Delivered w w' h =
        let (r, h1) = check-eq-ok (image_args machine arch version input) _ w w' tt h in
        command-Delivered w w' r h1

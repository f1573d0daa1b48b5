-- ===== src/Demo/Made.antt =====
-- The image that MakeImage makes.
use runj.Prelude.{
  ℕ, String, true, false, ◌≡◌, refl, ap, sym, ◌∙◌, Option, some, [], Result, ok, arith, length,
}
use runj.Demo.{
  Bytes, blob, oci_layout, layout, index_json, Files, put, World, Site, Failure, ◌>>=◌, ◌>>◌,
}
use runj.Demo.Tar.{make_tar}
use runj.Demo.Image.{
  written, unxz, digest_tar, compress, add_layer, describe, make_in_directory, make_image,
  new_directory,
}
use runj.Demo.Packed.{bind-eq-ok, check-eq-ok, make_tar_lem, files_of, is_readable}
use runj.Demo.Described.{
  Documents, unxz_lem, digest_tar_lem, compress_lem, add_layer_lem, describe_lem,
}
use runj.Demo.Shape.{image_files, image_files-has, IsImage, Walks, arch_of, Makes}

module _ (o : Site) (walks : Walks o) where
  -- What makeTar makes of the directory
  packed_lem :
      (arch : String) (input rootfs begun : Bytes)
      (k : Documents o arch
        (o.sha256 rootfs)
        (o.sha256 (written o rootfs begun))
        (length (written o rootfs begun)))
      → o.xz input ≡ some rootfs
      → o.gzip rootfs ≡ some begun
      → is_readable (o.walk (image_files o (written o rootfs begun) k.config k.manifest k.index))
        ≡ true
      → IsImage o arch input (record {
        entries =
            files_of (o.walk (image_files o (written o rootfs begun) k.config k.manifest k.index));
        whole = o.close_tar;
      })
  packed_lem arch input rootfs begun k x g r =
      let fs = image_files o (written o rootfs begun) k.config k.manifest k.index in
      let (i, l, m, c, y) =
        image_files-has o (written o rootfs begun) k.config k.manifest k.index in
      record {
        rootfs = rootfs;
        begun = begun;
        documents = k;
        unpacked = x;
        packed = g;
        has_index = walks fs index_json r ∙ i;
        has_layout = walks fs oci_layout r ∙ l;
        has_manifest = walks fs (blob (o.sha256 k.manifest)) r ∙ m;
        has_config = (c.0, c.1, walks fs (blob (o.sha256 k.config)) r ∙ c.2);
        has_layer = (y.0, y.1, walks fs (blob (o.sha256 (written o rootfs begun))) r ∙ y.2);
        ended = refl;
      }

  -- makeTar after the documents have been written
  tar_lem :
      (arch : String) (input rootfs begun : Bytes) (w w' : World)
      (k : Documents o arch
        (o.sha256 rootfs)
        (o.sha256 (written o rootfs begun))
        (length (written o rootfs begun)))
      → o.xz input ≡ some rootfs
      → o.gzip rootfs ≡ some begun
      → w.image ≡ image_files o (written o rootfs begun) k.config k.manifest k.index
      → make_tar o w ≡ (ok tt, w')
      → Makes o arch input w w'
  tar_lem arch input rootfs begun w w' k x g e h =
      let (n, r, q) = make_tar_lem o w w' h in
      let fs = image_files o (written o rootfs begun) k.config k.manifest k.index in
      let out_eq =
        ap (λ (v : World). v.out) q
        ∙ ap (λ (f : Files). some (record { entries = files_of (o.walk f); whole = o.close_tar }))
            e in
      (
        record { entries = files_of (o.walk fs); whole = o.close_tar },
        n,
        out_eq,
        ap (λ (v : World). v.download) q,
        packed_lem arch input rootfs begun k x g
            (ap (λ (f : Files). is_readable (o.walk f)) (sym e) ∙ r),
      )

  -- MakeImage from the layer on
  layer_lem :
      (arch : String) (input rootfs begun d l : Bytes) (n : ℕ) (w w' : World)
      → o.xz input ≡ some rootfs
      → o.gzip rootfs ≡ some begun
      → d ≡ o.sha256 rootfs
      → n ≡ length (written o rootfs begun)
      → l ≡ o.sha256 (written o rootfs begun)
      → w.image ≡ put (blob (o.sha256 (written o rootfs begun))) (written o rootfs begun) []
      → (describe o arch d l n >> make_tar o) w ≡ (ok tt, w')
      → Makes o arch input w w'
  layer_lem arch input rootfs begun d l n w w' x g de ne le e h =
      let layer = written o rootfs begun in
      let h' : (describe o arch (o.sha256 rootfs) (o.sha256 layer) (length layer) >> make_tar o) w
          ≡ (ok tt, w') =
        rw (← de, ← le, ← ne) h in
      let (_, v, u, t) =
        bind-eq-ok (describe o arch (o.sha256 rootfs) (o.sha256 layer) (length layer)) _ w w' tt
          h' in
      let (k, q) = describe_lem o arch (o.sha256 rootfs) (o.sha256 layer) (length layer) w v u in
      let (a, no_out, out, down, made) =
        tar_lem arch input rootfs begun v w' k x g
          (ap (λ (y : World). y.image) q
            ∙ ap
                (λ (f : Files). put index_json k.index (
                  put (blob (o.sha256 k.manifest)) k.manifest
                    (put (blob (o.sha256 k.config)) k.config (put oci_layout layout f))))
                e)
          t in
      (
        a,
        sym (ap (λ (y : World). y.out) q) ∙ no_out,
        out,
        down ∙ ap (λ (y : World). y.download) q,
        made,
      )

  -- MakeImage from the compression on
  compressed_lem :
      (arch : String) (input rootfs d : Bytes) (w w' : World)
      → o.xz input ≡ some rootfs
      → d ≡ o.sha256 rootfs
      → w.tar ≡ some rootfs
      → w.image ≡ []
      → (compress o >>= λ n. add_layer o >>= λ l. describe o arch d l n >> make_tar o) w
        ≡ (ok tt, w')
      → Makes o arch input w w'
  compressed_lem arch input rootfs d w w' x de t e h =
      let (n, v, u, h1) = bind-eq-ok (compress o) _ w w' tt h in
      let (begun, g, ne, q) = compress_lem o rootfs w v n t u in
      let (l, v', u', h2) = bind-eq-ok (add_layer o) _ v w' tt h1 in
      let layer = written o rootfs begun in
      let (le, q') = add_layer_lem o layer v v' l (ap (λ (y : World). y.tar_gz) q) u' in
      let (a, no_out, out, down, made) =
        layer_lem arch input rootfs begun d l n v' w' x g de ne le
          (ap (λ (y : World). y.image) q'
            ∙ ap (λ (y : World). put (blob (o.sha256 layer)) layer y.image) q
            ∙ ap (λ (f : Files). put (blob (o.sha256 layer)) layer f) e)
          h2 in
      (
        a,
        sym (ap (λ (y : World). y.out) q' ∙ ap (λ (y : World). y.out) q) ∙ no_out,
        out,
        down ∙ ap (λ (y : World). y.download) q' ∙ ap (λ (y : World). y.download) q,
        made,
      )

  make_in_directory_lem :
      (input : Option Bytes) (arch : String) (w w' : World)
      → w.image ≡ []
      → make_in_directory o input arch w ≡ (ok tt, w')
      → (bytes : Bytes) × (input ≡ some bytes) × Makes o (arch_of o arch) bytes w w'
  unfolding make_in_directory
  make_in_directory_lem input arch w w' e h =
      let (_, h1) = check-eq-ok o.make_blobs _ w w' tt h in
      let (_, v, u, h2) = bind-eq-ok (unxz o input) _ w w' tt h1 in
      let (bytes, rootfs, ie, x, q) = unxz_lem o input w v u in
      let (d, v', u', h3) = bind-eq-ok (digest_tar o) _ v w' tt h2 in
      let (de, q') = digest_tar_lem o rootfs v v' d (ap (λ (y : World). y.tar) q) u' in
      let (a, no_out, out, down, made) =
        compressed_lem (arch_of o arch) bytes rootfs d v' w' x de
          (ap (λ (y : World). y.tar) (q' ∙ q)) (ap (λ (y : World). y.image) (q' ∙ q) ∙ e) h3 in
      let makes : Makes o (arch_of o arch) bytes w w' = (
        a,
        sym (ap (λ (y : World). y.out) (q' ∙ q)) ∙ no_out,
        out,
        down ∙ ap (λ (y : World). y.download) (q' ∙ q),
        made,
      ) in
      (bytes, ie, makes)

  -- MakeImage that succeeds; its directory is gone in any case.
  pub make_image_lem :
      (input : Option Bytes) (arch : String) (w w' : World)
      → make_image o input arch w ≡ (ok tt, w')
      → (bytes : Bytes) × (input ≡ some bytes)
        × (w'.directory ≡ false)
        × Makes o (arch_of o arch) bytes w w'
  unfolding make_image
  make_image_lem input arch w w' h =
      let (_, h1) = check-eq-ok o.make_temp _ w w' tt h in
      let r = make_in_directory o input arch (new_directory w) in
      let (bytes, e, m) =
        make_in_directory_lem input arch (new_directory w) r.1 refl (ground arith) in
      let (a, no_out, out, down, made) = m in
      let q = ap (λ (y : Result Failure (Unit {0}) × World). y.1) h1 in
      let makes : Makes o (arch_of o arch) bytes w w' = (
        a,
        no_out,
        sym (ap (λ (y : World). y.out) q) ∙ out,
        sym (ap (λ (y : World). y.download) q) ∙ down,
        made,
      ) in
      (bytes, e, sym (ap (λ (y : World). y.directory) q), makes)

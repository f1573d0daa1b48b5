-- ===== src/Demo/Shape.antt =====
-- The files of an image and what it is to be one.
use runj.Prelude.{
  refl, inl, inr, Bool-cases, String, true, ◌≡◌, none, some, [], if◌then◌else◌, arith, length, ◌==◌,
}
use runj.Demo.{
  same_bytes, Bytes, Place, blob, oci_layout, layout, index_json, Files, file_at, put, same_place,
  World, Archive, Site, file_at-put, same_bytes_iff,
}
use runj.Demo.Image.{written}
use runj.Demo.Packed.{files_of, is_readable}
use runj.Demo.Described.{Documents}

-- Under the name of the digest of these contents are contents with this digest.
abbrev pub Stored : Site → Bytes → Files → Type 0
Stored o b fs = (c : Bytes) × (o.sha256 c ≡ o.sha256 b) × (file_at (blob (o.sha256 b)) fs ≡ some c)

-- The files that MakeImage puts into its directory.
abbrev pub image_files : Site → Bytes → Bytes → Bytes → Bytes → Files
image_files o layer config manifest index = put index_json index (
    put (blob (o.sha256 manifest)) manifest (
      put (blob (o.sha256 config)) config
        (put oci_layout layout (put (blob (o.sha256 layer)) layer []))))

module _ (o : Site) (layer config manifest index : Bytes) where
  image_files_lem :
      (p : Place)
      → file_at p (image_files o layer config manifest index) ≡ (
          if same_place index_json p
          then some index
          else if same_place (blob (o.sha256 manifest)) p
          then some manifest
          else if same_place (blob (o.sha256 config)) p
          then some config
          else if same_place oci_layout p
          then some layout
          else if same_place (blob (o.sha256 layer)) p
          then some layer
          else none)
  unfolding file_at
  image_files_lem p = simp (file_at-put)

  config-Stored : Stored o config (image_files o layer config manifest index)
  unfolding same_place
  config-Stored = elim (Bool-cases (same_bytes (o.sha256 manifest) (o.sha256 config))) [
    | inl e ↦ (
      manifest,
      (same_bytes_iff (o.sha256 manifest) (o.sha256 config)).0 e,
      ground (arith, image_files_lem (blob (o.sha256 config)), e),
    )
    | inr e ↦ (
      config,
      refl,
      ground (
        arith,
        image_files_lem (blob (o.sha256 config)),
        e,
        same_bytes_iff (o.sha256 config) (o.sha256 config),
      ),
    )
  ]

  layer-Stored : Stored o layer (image_files o layer config manifest index)
  unfolding same_place
  layer-Stored = elim (Bool-cases (same_bytes (o.sha256 manifest) (o.sha256 layer))) [
    | inl e ↦ (
      manifest,
      (same_bytes_iff (o.sha256 manifest) (o.sha256 layer)).0 e,
      ground (arith, image_files_lem (blob (o.sha256 layer)), e),
    )
    | inr e ↦ elim (Bool-cases (same_bytes (o.sha256 config) (o.sha256 layer))) [
      | inl e' ↦ (
        config,
        (same_bytes_iff (o.sha256 config) (o.sha256 layer)).0 e',
        ground (arith, image_files_lem (blob (o.sha256 layer)), e, e'),
      )
      | inr e' ↦ (
        layer,
        refl,
        ground (
          arith,
          image_files_lem (blob (o.sha256 layer)),
          e,
          e',
          same_bytes_iff (o.sha256 layer) (o.sha256 layer),
        ),
      )
    ]
  ]

  -- Each of them is there under its name, but where two contents have one digest.
  pub image_files-has :
      (file_at index_json (image_files o layer config manifest index) ≡ some index)
      × (file_at oci_layout (image_files o layer config manifest index) ≡ some layout)
      × (file_at (blob (o.sha256 manifest)) (image_files o layer config manifest index)
          ≡ some manifest)
      × Stored o config (image_files o layer config manifest index)
      × Stored o layer (image_files o layer config manifest index)
  unfolding same_place
  image_files-has = (
    ground (arith, image_files_lem index_json),
    ground (arith, image_files_lem oci_layout),
    ground (
      arith,
      image_files_lem (blob (o.sha256 manifest)),
      same_bytes_iff (o.sha256 manifest) (o.sha256 manifest),
    ),
    config-Stored,
    layer-Stored,
  )

-- An OCI image of the rootfs `input` for the architecture `arch`: the index names the manifest, the
-- manifest the config and the layer, each by its digest and its size. The archive has the manifest
-- under its digest, and under those of the config and the layer contents that have them: config and
-- layer, but where a file that is written later has the same digest. The layer is what the
-- compression of the rootfs has written and the config has the digest of the rootfs before it. The
-- layer or the archive lacks its end where closing the gzip or the tar writer fails, since the code
-- drops these errors (`written`, `close_tar`).
pub record IsImage (o : Site) (arch : String) (input : Bytes) (a : Archive) : Type 0 where
  pub rootfs : Bytes
  pub begun : Bytes
  pub documents :
      Documents o arch
        (o.sha256 rootfs)
        (o.sha256 (written o rootfs begun))
        (length (written o rootfs begun))
  pub unpacked : o.xz input ≡ some rootfs
  pub packed : o.gzip rootfs ≡ some begun
  pub has_index : file_at index_json a.entries ≡ some documents.index
  pub has_layout : file_at oci_layout a.entries ≡ some layout
  pub has_manifest :
      file_at (blob (o.sha256 documents.manifest)) a.entries ≡ some documents.manifest
  pub has_config : Stored o documents.config a.entries
  pub has_layer : Stored o (written o rootfs begun) a.entries
  pub ended : a.whole ≡ o.close_tar

-- filepath.Walk reports the files of a directory, where it reports no error.
abbrev pub Walks : Site → Type 0
Walks o =
    (fs : Files) (p : Place)
    → is_readable (o.walk fs) ≡ true
    → file_at p (files_of (o.walk fs)) ≡ file_at p fs

-- The architecture of the image
abbrev pub arch_of : Site → String → String
arch_of o arch = if arch == "" then o.goarch else arch

-- The output file has been made, with an image in it.
abbrev pub Makes : Site → String → Bytes → World → World → Type 0
Makes o arch input w w' =
    (a : Archive) × (w.out ≡ none)
    × (w'.out ≡ some a)
    × (w'.download ≡ w.download)
    × IsImage o arch input a

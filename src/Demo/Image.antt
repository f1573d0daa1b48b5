-- ===== src/Demo/Image.antt =====
-- demo/rootfs.go: MakeImage, with unxz, digestFile and writeBlob.
use runj.Prelude.{
  ℕ, String, true, false, Option, none, some, [], ◌∷◌, ◌++◌, length, ◌==◌, if◌then◌else◌,
}
use runj.Demo.{
  Bytes, Place, blob, oci_layout, layout, index_json, put, World, Site, Platform, Descriptor,
  Config, Manifest, Index, Make, answered, fails_unless, modify, pure, gets, deferred, ◌>>=◌, ◌>>◌,
}
use runj.Demo.Tar.{make_tar}

abbrev pub on_freebsd : String → Platform
on_freebsd arch = record { architecture = arch; os = "freebsd" }

-- The descriptor of a blob that is not an image for a platform.
abbrev pub described : String → Bytes → ℕ → Descriptor
described type digest size = record {
  media_type = type;
  digest = digest;
  size = size;
  platform = none;
}

abbrev pub image_config : String → Bytes → Config
image_config arch diff_id = record {
  platform = on_freebsd arch;
  rootfs_type = "layers";
  diff_ids = diff_id ∷ [];
  author = "runj <runj@sbk.wtf>";
}

abbrev pub image_manifest : Bytes → ℕ → Bytes → ℕ → Manifest
image_manifest config config_size layer layer_size = record {
  schema_version = 2;
  config = described "application/vnd.oci.image.config.v1+json" config config_size;
  layers = described "application/vnd.oci.image.layer.v1.tar+gzip" layer layer_size ∷ [];
}

abbrev pub image_index : String → Bytes → ℕ → Index
image_index arch manifest size = record {
  schema_version = 2;
  manifests =
      record {
        media_type = "application/vnd.oci.image.manifest.v1+json";
        digest = manifest;
        size = size;
        platform = some (on_freebsd arch);
      }
      ∷ [];
}

-- os.MkdirTemp, and the deferred os.RemoveAll
abbrev pub new_directory : World → World
new_directory w = record w { directory = true; tar = none; tar_gz = none; image = [] }

abbrev pub no_directory : World → World
no_directory w = record w { directory = false; tar = none; tar_gz = none; image = [] }

module _ (o : Site) where
  abbrev pub written : Bytes → Bytes → Bytes
  written tar begun = if o.close_gz then begun ++ o.gzip_end tar else begun

  -- os.WriteFile of a file of the image directory
  unfoldable pub write_place : Place → Bytes → Make (Unit {0})
  write_place p b = do
    fails_unless (o.write_file p)
    modify (λ w. record w { image = put p b w.image })

  unfoldable pub write_blob : Bytes → Make Bytes
  unfolding write_place
  write_blob b = do write_place (blob (o.sha256 b)) b; pure (o.sha256 b)

  -- unxz of the input, which is opened after the output has been made
  unfoldable pub unxz : Option Bytes → Make (Unit {0})
  unxz input = do
    fails_unless o.create_tar
    bytes ← answered input
    tar ← answered (o.xz bytes)
    modify (λ w. record w { tar = some tar })

  -- digestFile of rootfs.tar
  unfoldable pub digest_tar : Make Bytes
  digest_tar = do
    fails_unless o.read_tar
    tar ← gets (λ w. w.tar)
    bytes ← answered tar
    pure (o.sha256 bytes)

  -- The compression of rootfs.tar into rootfs.tar.gz, and its size. An error of Close or Sync is
  -- dropped.
  unfoldable pub compress : Make ℕ
  compress = do
    fails_unless o.open_tar
    tar ← gets (λ w. w.tar)
    bytes ← answered tar
    fails_unless o.create_gz
    begun ← answered (o.gzip bytes)
    modify (λ w. record w { tar_gz = some (written bytes begun) })
    fails_unless o.stat_gz
    pure (length (written bytes begun))

  -- digestFile of rootfs.tar.gz, and its move among the blobs
  unfoldable pub add_layer : Make Bytes
  add_layer = do
    fails_unless o.read_gz
    gz ← gets (λ w. w.tar_gz)
    bytes ← answered gz
    fails_unless o.rename_gz
    modify (λ w. record w { tar_gz = none; image = put (blob (o.sha256 bytes)) bytes w.image })
    pure (o.sha256 bytes)

  -- oci-layout, the config, the manifest and the index
  unfoldable pub describe : String → Bytes → Bytes → ℕ → Make (Unit {0})
  unfolding write_place write_blob
  describe arch diff_id layer layer_size = do
    write_place oci_layout layout
    config ← answered (o.marshal_config (image_config arch diff_id))
    config_digest ← write_blob config
    manifest ←
        answered
          (o.marshal_manifest (image_manifest config_digest (length config) layer layer_size))
    manifest_digest ← write_blob manifest
    index ← answered (o.marshal_index (image_index arch manifest_digest (length manifest)))
    write_place index_json index

  -- MakeImage within its temporary directory
  unfoldable pub make_in_directory : Option Bytes → String → Make (Unit {0})
  unfolding unxz digest_tar compress add_layer describe make_tar
  make_in_directory input arch = do
    fails_unless o.make_blobs
    unxz input
    diff_id ← digest_tar
    layer_size ← compress
    layer ← add_layer
    describe (if arch == "" then o.goarch else arch) diff_id layer layer_size
    make_tar o

  -- MakeImage, of the answer to the opening of its input
  unfoldable pub make_image : Option Bytes → String → Make (Unit {0})
  unfolding make_in_directory
  make_image input arch = do
    fails_unless o.make_temp
    modify new_directory
    deferred no_directory (make_in_directory input arch)

-- ===== src/Demo/Described.antt =====
-- What the stages of MakeImage have written where they succeed.
use runj.Prelude.{ℕ, String, ◌≡◌, Option, none, some, ok, arith, length}
use runj.Demo.{
  Bytes, Place, blob, oci_layout, layout, index_json, World, Site, Make, put, ◌>>=◌, ◌>>◌,
}
use runj.Demo.Image.{
  written, write_place, write_blob, unxz, digest_tar, compress, add_layer, describe, image_config,
  image_manifest, image_index,
}
use runj.Demo.Packed.{check-eq-ok, answered-eq-ok}

module _ (o : Site) where
  -- The files of an image besides the layer.
  pub record Documents (arch : String) (diff_id layer : Bytes) (size : ℕ) : Type 0 where
    pub config : Bytes
    pub manifest : Bytes
    pub index : Bytes
    pub encodes_config : o.marshal_config (image_config arch diff_id) ≡ some config
    pub encodes_manifest :
        o.marshal_manifest (image_manifest (o.sha256 config) (length config) layer size)
        ≡ some manifest
    pub encodes_index :
        o.marshal_index (image_index arch (o.sha256 manifest) (length manifest)) ≡ some index

  pub unxz_lem :
      (input : Option Bytes) (w w' : World)
      → unxz o input w ≡ (ok tt, w')
      → (bytes tar : Bytes) × (input ≡ some bytes)
        × (o.xz bytes ≡ some tar)
        × (w' ≡ record w { tar = some tar })
  unfolding unxz
  unxz_lem input w w' h =
      let (_, h1) = check-eq-ok o.create_tar _ w w' tt h in
      let (bytes, e, h2) = answered-eq-ok input _ w w' tt h1 in
      let (tar, x, h3) = answered-eq-ok (o.xz bytes) _ w w' tt h2 in
      (bytes, tar, e, x, ground arith)

  pub digest_tar_lem :
      (tar : Bytes) (w w' : World) (d : Bytes)
      → w.tar ≡ some tar
      → digest_tar o w ≡ (ok d, w')
      → (d ≡ o.sha256 tar) × (w' ≡ w)
  unfolding digest_tar
  digest_tar_lem tar w w' d e h = ground arith

  pub compress_lem :
      (tar : Bytes) (w w' : World) (n : ℕ)
      → w.tar ≡ some tar
      → compress o w ≡ (ok n, w')
      → (begun : Bytes) × (o.gzip tar ≡ some begun)
        × (n ≡ length (written o tar begun))
        × (w' ≡ record w { tar_gz = some (written o tar begun) })
  unfolding compress
  compress_lem tar w w' n e h =
      let (_, h1) = check-eq-ok o.open_tar _ w w' n h in
      let (t, x, h2) = answered-eq-ok w.tar _ w w' n h1 in
      let (_, h3) = check-eq-ok o.create_gz _ w w' n h2 in
      let (begun, y, h4) = answered-eq-ok (o.gzip t) _ w w' n h3 in
      (begun, ground arith, ground arith, ground arith)

  pub add_layer_lem :
      (gz : Bytes) (w w' : World) (d : Bytes)
      → w.tar_gz ≡ some gz
      → add_layer o w ≡ (ok d, w')
      → (d ≡ o.sha256 gz)
        × (w' ≡ record w { tar_gz = none; image = put (blob (o.sha256 gz)) gz w.image })
  unfolding add_layer
  add_layer_lem gz w w' d e h = ground arith

  -- What is left to do after a file is written
  after_place :
      (p : Place) (b : Bytes) (k : Make (Unit {0})) (w w' : World)
      → (write_place o p b >> k) w ≡ (ok tt, w')
      → k (record w { image = put p b w.image }) ≡ (ok tt, w')
  unfolding write_place
  after_place p b k w w' h = ground arith

  after_blob :
      (b : Bytes) (k : Bytes → Make (Unit {0})) (w w' : World)
      → (write_blob o b >>= k) w ≡ (ok tt, w')
      → k (o.sha256 b) (record w { image = put (blob (o.sha256 b)) b w.image }) ≡ (ok tt, w')
  unfolding write_blob write_place
  after_blob b k w w' h = ground arith

  pub describe_lem :
      (arch : String) (diff_id layer : Bytes) (size : ℕ) (w w' : World)
      → describe o arch diff_id layer size w ≡ (ok tt, w')
      → (k : Documents arch diff_id layer size) × (w' ≡ record w {
        image = put index_json k.index (
            put
              (blob (o.sha256 k.manifest))
              k.manifest
              (put (blob (o.sha256 k.config)) k.config (put oci_layout layout w.image)));
      })
  unfolding describe write_place
  describe_lem arch diff_id layer size w w' h =
      let h0 = after_place oci_layout layout _ w w' h in
      let (config, e1, h1) =
        answered-eq-ok (o.marshal_config (image_config arch diff_id)) _ _ w' tt h0 in
      let h2 = after_blob config _ _ w' h1 in
      let (manifest, e2, h3) = answered-eq-ok _ _ _ w' tt h2 in
      let h4 = after_blob manifest _ _ w' h3 in
      let (index, e3, h5) = answered-eq-ok _ _ _ w' tt h4 in
      (
        record {
          config = config;
          manifest = manifest;
          index = index;
          encodes_config = e1;
          encodes_manifest = e2;
          encodes_index = e3;
        },
        ground arith,
      )

-- ===== src/Examples/Images.antt =====
-- A run of the oci-image command: the rootfs is downloaded and packed.
use runj.Prelude.{◌≡◌, refl, true, false, some, none, List, [], ◌∷◌}
use runj.Demo.{Files, World, Site, Visit, file, put, blob, oci_layout, layout, index_json}
use runj.Demo.Image.{make_image}
use runj.Demo.Command.{oci_image, image_args, image_command, make_downloaded, fetch}
use runj.Demo.Delivered.{Delivered}

abbrev visits : Files → List Visit
visits [] = []
visits ((p, b) ∷ fs) = file p b ∷ visits fs

-- A place where all goes well; a digest is the content itself.
abbrev site : Site
site = record {
  make_temp = true;
  make_blobs = true;
  create_tar = true;
  xz = λ b. some (7 ∷ b);
  read_tar = true;
  open_tar = true;
  create_gz = true;
  gzip = λ b. some (8 ∷ b);
  gzip_end = λ b. 9 ∷ [];
  close_gz = true;
  stat_gz = true;
  read_gz = true;
  rename_gz = true;
  write_file = λ p. true;
  sha256 = λ b. b;
  goarch = "amd64";
  marshal_config = λ c. some (1 ∷ []);
  marshal_manifest = λ m. some (2 ∷ []);
  marshal_index = λ i. some (3 ∷ []);
  create_out = true;
  walk = visits;
  write_header = λ p. true;
  open_file = λ p. true;
  copy = λ p. true;
  close_tar = true;
  get = λ url. some (200, 5 ∷ 6 ∷ []);
  interrupted = none;
  create_download = true;
  open_download = true;
  read_input = λ path. none;
}

abbrev empty : World
empty = record {
  out = none;
  directory = false;
  tar = none;
  tar_gz = none;
  image = [];
  download = none;
}

image_test :
    (oci_image site "amd64" "aarch64" "14.2-RELEASE" "" empty).1.out
    ≡ some (record {
      entries =
          (blob (8 ∷ 7 ∷ 5 ∷ 6 ∷ 9 ∷ []), 8 ∷ 7 ∷ 5 ∷ 6 ∷ 9 ∷ [])
          ∷ (oci_layout, layout)
          ∷ (blob (1 ∷ []), 1 ∷ [])
          ∷ (blob (2 ∷ []), 2 ∷ [])
          ∷ (index_json, 3 ∷ [])
          ∷ [];
      whole = true;
    })
unfolding oci_image image_args image_command make_downloaded fetch make_image put
image_test = refl

-- ===== src/Demo/Kept.antt =====
-- What MakeImage leaves as it is on every outcome.
use runj.Prelude.{
  ℕ, String, false, ◌≡◌, refl, ◌∙◌, Option, some, List, [], ◌∷◌, Result, ok, err, arith,
}
use runj.Demo.{
  Bytes, Place, World, Archive, Site, Make, Failure, Visit, unreadable, directory, file,
  fails_unless, continue, ◌>>=◌,
}
use runj.Demo.Tar.{make_tar, add_all, add_file}
use runj.Demo.Image.{
  write_place, write_blob, unxz, digest_tar, compress, add_layer, describe, make_in_directory,
  make_image, new_directory,
}
use runj.Demo.Shape.{arch_of}

-- An output file that is there, and the temporary file of a download, stay as they are.
pub record Keeps {ℓ} {A : Type ℓ} (m : Make A) : Type 0 where
  pub keeps : (w : World) (a : Archive) → w.out ≡ some a → (m w).1.out ≡ some a
  pub keeps_download : (w : World) → (m w).1.download ≡ w.download

module _ {ℓ κ} {A : Type ℓ} {B : Type κ} where
  continue-Keeps :
      (r : Result Failure A) (f : A → Make B) → ((a : A) → Keeps (f a)) → Keeps (continue r f)
  continue-Keeps (ok a) f k = k a
  continue-Keeps (err d) f k = record { keeps = λ w x e. e; keeps_download = λ w. refl }

  bind-Keeps : (m : Make A) (f : A → Make B) → Keeps m → ((a : A) → Keeps (f a)) → Keeps (m >>= f)
  bind-Keeps m f hm hf = record {
    keeps = λ w x e. (continue-Keeps (m w).0 f hf).keeps (m w).1 x (hm.keeps w x e);
    keeps_download =
        λ w. (continue-Keeps (m w).0 f hf).keeps_download (m w).1 ∙ hm.keeps_download w;
  }

module _ (o : Site) where
  unxz-Keeps : (input : Option Bytes) → Keeps (unxz o input)
  unfolding unxz
  unxz-Keeps input = record { keeps = λ w x e. ground arith; keeps_download = λ w. ground arith }

  digest_tar-Keeps : Keeps (digest_tar o)
  unfolding digest_tar
  digest_tar-Keeps = record { keeps = λ w x e. ground arith; keeps_download = λ w. ground arith }

  compress-Keeps : Keeps (compress o)
  unfolding compress
  compress-Keeps = record { keeps = λ w x e. ground arith; keeps_download = λ w. ground arith }

  add_layer-Keeps : Keeps (add_layer o)
  unfolding add_layer
  add_layer-Keeps = record { keeps = λ w x e. ground arith; keeps_download = λ w. ground arith }

  describe-Keeps : (arch : String) (d l : Bytes) (n : ℕ) → Keeps (describe o arch d l n)
  unfolding describe write_place write_blob
  describe-Keeps arch d l n = record {
    keeps = λ w x e. ground arith;
    keeps_download = λ w. ground arith;
  }

  add_file-download :
      (p : Place) (b : Bytes) (w : World) → (add_file o p b w).1.download ≡ w.download
  unfolding add_file
  add_file-download p b w = ground arith

  add_all-download : (vs : List Visit) (w : World) → (add_all o vs w).1.download ≡ w.download
  unfolding add_all
  add_all-download [] w = refl
  add_all-download (unreadable ∷ vs) w = ground arith
  add_all-download (directory ∷ vs) w = add_all-download vs w
  add_all-download (file p b ∷ vs) w =
      ground (arith, add_all-download vs (add_file o p b w).1, add_file-download p b w)

  make_tar-Keeps : Keeps (make_tar o)
  unfolding make_tar
  make_tar-Keeps = record {
    keeps = λ w x e. ground arith;
    keeps_download = λ w. ground (
      arith,
      add_all-download (o.walk w.image)
          (record w { out = some (record { entries = []; whole = false }) }),
    );
  }

  make_in_directory-Keeps :
      (input : Option Bytes) (arch : String) → Keeps (make_in_directory o input arch)
  unfolding make_in_directory
  make_in_directory-Keeps input arch =
      bind-Keeps (fails_unless o.make_blobs) _
        (record { keeps = λ w x e. e; keeps_download = λ w. refl })
        λ _. bind-Keeps (unxz o input) _ (unxz-Keeps input) λ _.
          bind-Keeps (digest_tar o) _ digest_tar-Keeps λ d.
            bind-Keeps (compress o) _ compress-Keeps λ n.
              bind-Keeps (add_layer o) _ add_layer-Keeps λ l.
                bind-Keeps (describe o (arch_of o arch) d l n) _
                  (describe-Keeps (arch_of o arch) d l n) λ _. make_tar-Keeps

  pub make_image-Keeps : (input : Option Bytes) (arch : String) → Keeps (make_image o input arch)
  unfolding make_image
  make_image-Keeps input arch = record {
    keeps = λ w x e. ground (arith, (make_in_directory-Keeps input arch).keeps (new_directory w) x);
    keeps_download =
        λ w. ground (arith, (make_in_directory-Keeps input arch).keeps_download (new_directory w));
  }

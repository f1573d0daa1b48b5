-- ===== src/Demo.antt =====
-- demo/ and cmd/runj/demo.go: the files of a demonstration image, what the system answers, and the
-- monad of the functions that write them: one that fails keeps what it has done so far.
pub mod Tar
pub mod Image
pub mod Command
pub mod Version
pub mod Packed
pub mod Described
pub mod Shape
pub mod Made
pub mod Kept
pub mod Delivered
pub mod Requested
use runj.Prelude.{
  ℕ, String, Bool, true, false, ◌&&◌, ◌||◌, ◌≡◌, ◌↔◌, refl, Option, none, some, List, [], ◌∷◌, ◌++◌,
  ◌==ℕ◌, ==ℕ_iff, if◌then◌else◌, Result, ok, err, arith, Bool-cases, inl, inr,
}
use runj.Text.{bytes}

abbrev pub Bytes : Type 0
Bytes = List ℕ

unfoldable pub same_bytes : Bytes → Bytes → Bool
same_bytes [] [] = true
same_bytes (x ∷ xs) (y ∷ ys) = x ==ℕ y && same_bytes xs ys
same_bytes _ _ = false

-- A file of the image directory: a blob of blobs/sha256, by the digest that is its name; oci-layout;
-- index.json.
pub data Place : Type 0 where
  blob : Bytes → Place
  oci_layout index_json : Place

unfoldable pub same_place : Place → Place → Bool
unfolding same_bytes
same_place (blob d) (blob e) = same_bytes d e
same_place oci_layout oci_layout = true
same_place index_json index_json = true
same_place _ _ = false

abbrev pub Files : Type 0
Files = List (Place × Bytes)

unfoldable pub file_at : Place → Files → Option Bytes
unfolding same_place
file_at p [] = none
file_at p ((q, b) ∷ fs) = if same_place q p then some b else file_at p fs

-- os.WriteFile and os.Rename replace the file that is there.
unfoldable pub put : Place → Bytes → Files → Files
unfolding same_place
put p b [] = (p, b) ∷ []
put p b ((q, c) ∷ fs) = if same_place q p then (p, b) ∷ fs else (q, c) ∷ put p b fs

-- A tar file: the files in it, and whether its end has been written.
pub record Archive : Type 0 where
  pub entries : Files
  pub whole : Bool

-- The output file, the temporary directory of MakeImage, and the temporary file of the download.
pub record World : Type 0 where
  pub out : Option Archive
  pub directory : Bool
  pub tar : Option Bytes
  pub tar_gz : Option Bytes
  pub image : Files
  pub download : Option Bytes

-- What filepath.Walk hands to its function.
pub data Visit : Type 0 where
  unreadable directory : Visit
  file : Place → Bytes → Visit

-- image-spec's Descriptor, Image, Manifest and Index, in the fields that are set. A digest is its
-- encoded part, for the algorithm is always sha256.
pub record Platform : Type 0 where
  pub architecture : String
  pub os : String

pub record Descriptor : Type 0 where
  pub media_type : String
  pub digest : Bytes
  pub size : ℕ
  pub platform : Option Platform

pub record Config : Type 0 where
  pub platform : Platform
  pub rootfs_type : String
  pub diff_ids : List Bytes
  pub author : String

pub record Manifest : Type 0 where
  pub schema_version : ℕ
  pub config : Descriptor
  pub layers : List Descriptor

pub record Index : Type 0 where
  pub schema_version : ℕ
  pub manifests : List Descriptor

-- The answers of the file system and of the network, and the code of other packages: sha256, gzip,
-- xz and JSON.
pub record Site : Type 0 where
  pub make_temp : Bool
  pub make_blobs : Bool
  -- unxz: its output is made, and the answer of xz
  pub create_tar : Bool
  pub xz : Bytes → Option Bytes
  pub read_tar : Bool
  pub open_tar : Bool
  pub create_gz : Bool
  -- what the writer has written before its Close, and what Close adds where it works
  pub gzip : Bytes → Option Bytes
  pub gzip_end : Bytes → Bytes
  pub close_gz : Bool
  pub stat_gz : Bool
  pub read_gz : Bool
  pub rename_gz : Bool
  pub write_file : Place → Bool
  pub sha256 : Bytes → Bytes
  pub goarch : String
  pub marshal_config : Config → Option Bytes
  pub marshal_manifest : Manifest → Option Bytes
  pub marshal_index : Index → Option Bytes
  -- makeTar
  pub create_out : Bool
  pub walk : Files → List Visit
  pub write_header : Place → Bool
  pub open_file : Place → Bool
  pub copy : Place → Bool
  pub close_tar : Bool
  -- http.Get of a URL: the status and the body; the part of it that is copied, if not all is
  pub get : String → Option (ℕ × Bytes)
  pub interrupted : Option Bytes
  pub create_download : Bool
  pub open_download : Bool
  pub read_input : String → Option Bytes

-- The content of oci-layout
unfoldable pub layout : Bytes
unfolding bytes
layout = bytes "{\"imageLayoutVersion\": \"1.0.0\"}"

pub data Failure : Type 0 where
  failed : Failure

abbrev pub Make {ℓ} : Type ℓ → Type ℓ
Make A = World → Result Failure A × World

module _ {ℓ} {A : Type ℓ} where
  abbrev pub pure : A → Make A
  pure a w = (ok a, w)

  -- `if err != nil { return err }` after a call that answers
  abbrev pub answered : Option A → Make A
  answered none w = (err failed, w)
  answered (some a) w = (ok a, w)

  abbrev pub gets : (World → A) → Make A
  gets f w = (ok (f w), w)

abbrev pub modify : (World → World) → Make (Unit {0})
modify f w = (ok tt, f w)

abbrev pub fails_unless : Bool → Make (Unit {0})
fails_unless b w = (if b then ok tt else err failed, w)

abbrev pub continue {ℓ κ} :
    {A : Type ℓ} {B : Type κ} → Result Failure A → (A → Make B) → World → Result Failure B × World
continue (ok a) f w = f a w
continue (err e) f w = (err e, w)

infixl 10 ◌>>=◌ ◌>>◌
abbrev pub ◌>>=◌ {ℓ κ} : {A : Type ℓ} {B : Type κ} → Make A → (A → Make B) → Make B
◌>>=◌ m f w = let (r, w') = m w in continue r f w'

abbrev pub ◌>>◌ {ℓ κ} : {A : Type ℓ} {B : Type κ} → Make A → Make B → Make B
m >> n = m >>= λ _. n

-- `defer` of a function that does not look at the error.
abbrev pub deferred {ℓ} : {A : Type ℓ} → (World → World) → Make A → Make A
deferred f m w = let (r, w') = m w in (r, f w')

pub same_bytes_iff : (a b : Bytes) → (same_bytes a b ≡ true) ↔ (a ≡ b)
unfolding same_bytes
same_bytes_iff [] [] = ground arith
same_bytes_iff [] (y ∷ ys) = ground arith
same_bytes_iff (x ∷ xs) [] = ground arith
same_bytes_iff (x ∷ xs) (y ∷ ys) = ground (arith, same_bytes_iff xs ys)

pub same_place_iff : (p q : Place) → (same_place p q ≡ true) ↔ (p ≡ q)
unfolding same_place
same_place_iff (blob d) (blob e) = ground (arith, same_bytes_iff d e)
same_place_iff (blob d) oci_layout = ground arith
same_place_iff (blob d) index_json = ground arith
same_place_iff oci_layout (blob d) = ground arith
same_place_iff oci_layout oci_layout = ground arith
same_place_iff oci_layout index_json = ground arith
same_place_iff index_json (blob d) = ground arith
same_place_iff index_json oci_layout = ground arith
same_place_iff index_json index_json = ground arith

-- A file that is written is there, and the others are as before.
pub file_at-put :
    (p q : Place) (b : Bytes) (fs : Files)
    → file_at q (put p b fs) ≡ (if same_place p q then some b else file_at q fs)
unfolding file_at put
file_at-put p q b [] = ground (arith, same_place_iff p q)
file_at-put p q b ((r, c) ∷ fs) =
    ground (arith, same_place_iff p q, same_place_iff r p, same_place_iff r q, file_at-put p q b fs)

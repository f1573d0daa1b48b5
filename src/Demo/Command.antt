-- ===== src/Demo/Command.antt =====
-- cmd/runj/demo.go: the download, oci-image and spec commands, with DownloadRootfs of
-- demo/rootfs.go.
use runj.Prelude.{
  not, ℕ, String, Bool, true, false, ◌&&◌, ◌||◌, Option, none, some, [], ◌∷◌, Result, ok, err, ltb,
  ◌==◌, ◌!=◌, if◌then◌else◌,
}
use runj.FilePath.{◌+++◌, clean}
use runj.Oci
use runj.Demo.{Bytes, Site, Make, Failure, failed, fails_unless, gets, deferred, ◌>>=◌, ◌>>◌}
use runj.Demo.Image.{make_image}
use runj.Demo.Version.{freebsd_version, uname}

-- Writes at the start of a file leave what is behind them.
unfoldable pub overlay : Bytes → Bytes → Bytes
overlay [] old = old
overlay (b ∷ bs) [] = b ∷ bs
overlay (b ∷ bs) (c ∷ cs) = b ∷ overlay bs cs

unfoldable pub url : String → String → String → String
unfolding ◌+++◌
url machine arch version =
    "https://download.freebsd.org/ftp/releases/" +++ machine +++ "/" +++ arch +++ "/" +++ version
    +++ "/base.txz"

-- The body of an answer of http.Get whose status is one of success
unfoldable pub body_of : Option (ℕ × Bytes) → Option Bytes
body_of none = none
body_of (some (status, body)) = if ltb status 200 || ltb 299 status then none else some body

-- PreRunE of oci-image: whether the flags are accepted
unfoldable pub image_args : String → String → String → String → Bool
image_args machine arch version input =
    if ((machine == "") || (arch == "") || (version == "")) && (input == "")
    then false
    else if (input != "") && ((machine != "") || (arch != "") || (version != ""))
    then false
    else true

module _ (o : Site) where
  unfoldable pub download_rootfs : String → String → String → Option Bytes
  unfolding url body_of
  download_rootfs machine arch version = body_of (o.get (url machine arch version))

  -- What is written of a body, and whether that is all of it
  unfoldable pub copied : Option Bytes → Bytes → Bytes → Result Failure (Unit {0}) × Bytes
  unfolding overlay
  copied none body old = (ok tt, overlay body old)
  copied (some part) body old = (err failed, overlay part old)

  -- downloadImage into a file with the content `old`: the result and the new content
  unfoldable pub download_image :
      String → String → String → Bytes → Result Failure (Unit {0}) × Bytes
  unfolding download_rootfs copied
  download_image machine arch version old = elim (download_rootfs machine arch version) [
    | none ↦ (err failed, old)
    | some body ↦ copied o.interrupted body old
  ]

  -- downloadImage into the temporary file
  unfoldable pub fetch : String → String → String → Make (Unit {0})
  unfolding download_image
  fetch machine arch version w =
      let (r, b) = download_image machine arch version [] in (r, record w { download = some b })

  -- RunE of oci-image with the temporary file of the download
  unfoldable pub make_downloaded : String → String → String → Make (Unit {0})
  make_downloaded machine arch version = do
    fetch machine arch version
    file ← gets (λ w. if o.open_download then w.download else none)
    make_image o file arch

  -- RunE of oci-image
  unfoldable pub image_command : String → String → String → String → Make (Unit {0})
  image_command machine arch version input =
      if input == ""
      then (do
        fails_unless o.create_download
        deferred (λ w. record w { download = none }) (make_downloaded machine arch version))
      else make_image o (o.read_input input) arch

  -- oci-image: PreRunE and then RunE
  unfoldable pub oci_image : String → String → String → String → Make (Unit {0})
  oci_image machine arch version input = do
    fails_unless (image_args machine arch version input)
    image_command machine arch version input

-- A flag, or what the system says where it is not set
unfoldable pub flag_or : String → Option String → Option String
flag_or flag reported = if flag == "" then reported else some flag

-- RunE of download, on the answers of the three programs and on the content of the output file,
-- which is opened without being cut: the result and the new content.
unfoldable pub download_command :
    Site
    → String
    → String
    → String
    → Option String
    → Option String
    → Option String
    → Option Bytes
    → Result Failure (Unit {0}) × Option Bytes
unfolding flag_or freebsd_version uname download_image
download_command o machine arch version machine_out arch_out version_out opened =
    elim (flag_or machine (uname machine_out)) [
      | none ↦ (err failed, opened)
      | some m ↦ elim (flag_or arch (uname arch_out)) [
        | none ↦ (err failed, opened)
        | some a ↦ elim (flag_or version (freebsd_version version_out)) [
          | none ↦ (err failed, opened)
          | some v ↦ elim opened [
            | none ↦ (err failed, none)
            | some old ↦ let (r, b) = download_image o m a v old in (r, some b)
          ]
        ]
      ]
    ]

-- exampleSpec, for the version of the runtime specification
unfoldable pub example_spec : String → Oci.Spec
example_spec version = record {
  version = version;
  process = some (record { terminal = false; args = "sh" ∷ []; env = [] });
  root = some (record { path = "rootfs" });
  hostname = "";
  domainname = "";
  mounts =
      record {
        destination = "/dev";
        type = "devfs";
        source = "devfs";
        options = "ruleset=4" ∷ [];
        uid_mappings = [];
        gid_mappings = [];
      }
      ∷ [];
  hooks = none;
  annotations = [];
  freebsd = some (record {
    jail = some (record {
      host = "";
      ip4 = "inherit";
      ip4_addr = [];
      ip6 = "";
      ip6_addr = [];
      vnet = "";
      vnet_interfaces = [];
      enforce_statfs = none;
    });
  });
}

-- checkNoFile, of the answer of os.Stat: `none` where it fails otherwise than with IsNotExist
unfoldable pub check_no_file : Option Bool → Result Failure (Unit {0})
check_no_file none = err failed
check_no_file (some true) = err failed
check_no_file (some false) = ok tt

-- RunE of spec: the spec that is written to config.json in the bundle's directory
unfoldable pub spec_command :
    (String → Bool) → Option Bool → Bool → String → String → Result Failure Oci.Spec
unfolding example_spec check_no_file clean
spec_command chdir stat write version bundle =
    if (bundle != "") && not (chdir (clean bundle)) then err failed else elim (check_no_file stat) [
      | err e ↦ err e
      | ok u ↦ if write then ok (example_spec version) else err failed
    ]

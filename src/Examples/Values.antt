-- ===== src/Examples/Values.antt =====
-- Runs of the pure parts: jail parameters, bundles, extensions and numbers.
use runj.Text.{bytes, has_nul}
use runj.Oci.Merge.{merge_lem, no_jail, extended, merge}
use runj.Jail.Params.Settings.{settings, Encodes}
use runj.Jail.Params.Settings.Table.{iovec-settings}
use runj.Containerd.Bundle.Equal.{SameMount, equal_mounts_lem}
use runj.Jail.Params.Valid.{IsValid}
use runj.Jail.Params.Valid.Accepted.{iovec-IsOk}
use runj.Jail.Params.Layout.{iovec-WellFormed}
use runj.Jail.Iovec.{nil_iovec, be_bytes, net_ip_iovec, int32_iovec, string_iovec, Iovec, v4, Addr}
use runj.Containerd.Bundle.Filter.{filter_mounts_lem, Kept, In, Unique}
use runj.Jail.Iovec.Shape.{WellFormed}
use runj.Jail.Params.{
  enforce_statfs_block, ip6_addr_block, ip6_block, ip4_addr_block, ip4_block, vnet_block,
  host_block, optional_string, iovec, CreateParams,
}
use runj.Text.Decimal.{atoi-itoa, pos, itoa, atoi}
use runj.Oci.{Ext, Spec, Mount}
use runj.Containerd.Bundle.{filter_mounts, incompatible_linux_mounts, equal_mounts}
use runj.Prelude.{
  err, refl, eq_iff, ◌!=◌, ◌&&◌, ok, ◌≢◌, Bool, All, List, none, arith, ◌==◌, if◌then◌else◌, some,
  ◌↔◌, true, Option, ◌≡◌, [], ◌∷◌, String, IsOk,
}

abbrev table_address : String → Option Addr
table_address s = if s == "192.0.2.1" then some (v4 3221225985) else none

abbrev web_params : CreateParams
web_params = record {
  name = "web";
  root = "/bundle/root";
  hostname = "web.example";
  domainname = "";
  host = "new";
  ip4 = "new";
  ip4_addr = "192.0.2.1" ∷ [];
  ip6 = "disable";
  ip6_addr = [];
  vnet = "";
  vnet_interface = [];
  enforce_statfs = some (pos 1);
}

iovec-IsOk_example : IsOk (iovec table_address web_params) ↔ IsValid table_address web_params
iovec-IsOk_example = iovec-IsOk table_address web_params

iovec-WellFormed_example : WellFormed (iovec table_address web_params)
iovec-WellFormed_example = iovec-WellFormed table_address web_params

abbrev proc_mount : Mount
proc_mount = record {
  destination = "/proc";
  type = "proc";
  source = "proc";
  options = "nosuid" ∷ "noexec" ∷ "nodev" ∷ [];
  uid_mappings = [];
  gid_mappings = [];
}

abbrev data_mount : Mount
data_mount = record {
  destination = "/data";
  type = "nullfs";
  source = "/srv";
  options = [];
  uid_mappings = [];
  gid_mappings = [];
}

equal_mounts_lem_example :
    (equal_mounts proc_mount data_mount ≡ true) ↔ SameMount proc_mount data_mount
equal_mounts_lem_example = equal_mounts_lem proc_mount data_mount

abbrev differs : String → List Mount → Bool
differs d [] = true
differs d (m ∷ ms) = d != m.destination && differs d ms

abbrev are_unique : List Mount → Bool
are_unique [] = true
are_unique (m ∷ ms) = differs m.destination ms && are_unique ms

differs-All : (d : String) (ms : List Mount) → differs d ms ≡ true → All (λ y. d ≢ y.destination) ms
differs-All d [] h = tt
differs-All d (m ∷ ms) h =
    (λ e. ground (arith, h, (eq_iff d m.destination).1 e), differs-All d ms (ground (arith, h)))

are_unique-Unique : (ms : List Mount) → are_unique ms ≡ true → Unique ms
are_unique-Unique [] h = tt
are_unique-Unique (m ∷ ms) h =
    (differs-All m.destination ms (ground (arith, h)), are_unique-Unique ms (ground (arith, h)))

incompatible-Unique : Unique incompatible_linux_mounts
incompatible-Unique = are_unique-Unique incompatible_linux_mounts refl

filter_mounts_lem_example :
    In data_mount (filter_mounts incompatible_linux_mounts (proc_mount ∷ data_mount ∷ []))
    ↔ Kept incompatible_linux_mounts (proc_mount ∷ data_mount ∷ []) data_mount
filter_mounts_lem_example =
    filter_mounts_lem incompatible_linux_mounts (proc_mount ∷ data_mount ∷ []) data_mount
      incompatible-Unique

atoi-itoa_example : atoi (itoa 4294967295) ≡ some (pos 4294967295)
atoi-itoa_example = atoi-itoa 4294967295 (omega arith)

abbrev web_spec : Spec
web_spec = record {
  version = "1.0.2";
  process = none;
  root = none;
  hostname = "";
  domainname = "";
  mounts = proc_mount ∷ [];
  hooks = none;
  annotations = [];
  freebsd = none;
}

abbrev web_ext : Ext
web_ext = record {
  network =
      some (record { ipv4 = some (record { mode = "new"; addr = "192.0.2.1" ∷ [] }); vnet = none });
}

merge_lem_example :
    merge (some web_spec) (some web_ext)
    ≡ some (record web_spec {
      freebsd = some (record { jail = some (extended web_ext.network no_jail) });
    })
merge_lem_example = merge_lem web_spec web_ext

web_iovec : List Iovec
web_iovec = elim (iovec table_address web_params) [ ok v ↦ v | err e ↦ [] ]

iovec-settings_example : Encodes (settings table_address web_params) web_iovec
unfolding web_iovec iovec string_iovec has_nul bytes optional_string host_block int32_iovec
    vnet_block ip4_block ip4_addr_block net_ip_iovec be_bytes ip6_block ip6_addr_block
    enforce_statfs_block nil_iovec
iovec-settings_example = iovec-settings table_address web_params web_iovec refl

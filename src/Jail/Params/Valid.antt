-- ===== src/Jail/Params/Valid.antt =====
-- jail/params.go: which configurations CreateParams.iovec accepts.
pub mod Blocks
pub mod Addresses
pub mod Accepted
use runj.Prelude.{
  suc, bind-eq-ok, Result-ok, length, eq_iff, ℕ, ◌≤◌, ◌≡◌, refl, ap, ◌↔◌, String, Bool, true, false,
  Option, none, some, List, [], ◌∷◌, arith, Result, ok, err, ◌>>=◌, inl, inr, ◌==◌, ◌!=◌,
  if◌then◌else◌, All, ◌⊎◌, IsOk, IsOk-bind, bind-IsOk,
}
use runj.Text.{bytes, has_nul}
use runj.Text.Decimal.{ℤ, pos, negsuc}
use runj.Jail.Iovec.{
  is6, Addr, v4, v6, is4in6, ParamError, unknown_ip4, unknown_ip6, string_iovec, int32_iovec,
  nil_iovec,
}
use runj.Jail.Iovec.Shape.{net_ip_iovec-IsOk}
use runj.Jail.Params.{
  iovec, CreateParams, optional_string, host_block, host_mode, vnet_block, vnet_mode, ip_mode,
  ip4_block, ip6_block, enforce_statfs_block, ip4_addr_block, ip6_addr_block, ip4_of, ip6_of,
  ip4_addrs, ip6_addrs,
}

abbrev pub NoNul : String → Type 0
NoNul s = has_nul (bytes s) ≡ false

-- docs/oci.md: `inherit` for the host excludes a host name and a domain name.
abbrev pub HostValid : CreateParams → Type 0
HostValid c =
    (c.host ≡ "")
    ⊎ (c.host ≡ "new")
    ⊎ ((c.host ≡ "inherit") × (c.hostname ≡ "") × (c.domainname ≡ ""))

abbrev pub VnetValid : String → Type 0
VnetValid v = (v ≡ "") ⊎ (v ≡ "new") ⊎ (v ≡ "inherit")

abbrev pub IpValid : String → Type 0
IpValid v = (v ≡ "") ⊎ (v ≡ "disable") ⊎ (v ≡ "new") ⊎ (v ≡ "inherit")

abbrev pub StatfsValid : Option ℤ → Type 0
StatfsValid none = Unit
StatfsValid (some (pos n)) = n ≤ 2
StatfsValid (some (negsuc n)) = ⊥

abbrev pub IsIp4 : (String → Option Addr) → String → Type 0
IsIp4 parse_addr s = (n : ℕ) × (parse_addr s ≡ some (v4 n))

-- An IPv6 address that is no IPv4-mapped one.
abbrev pub IsIp6 : (String → Option Addr) → String → Type 0
IsIp6 parse_addr s = (n : ℕ) × (parse_addr s ≡ some (v6 n)) × (is4in6 (v6 n) ≡ false)

pub record IsValid (parse_addr : String → Option Addr) (c : CreateParams) : Type 0 where
  pub name : NoNul c.name
  pub root : NoNul c.root
  pub hostname : NoNul c.hostname
  pub domainname : NoNul c.domainname
  pub host : HostValid c
  pub vnet : VnetValid c.vnet
  pub ip4 : IpValid c.ip4
  pub ip4_addr : All (IsIp4 parse_addr) c.ip4_addr
  pub ip6 : IpValid c.ip6
  pub ip6_addr : All (IsIp6 parse_addr) c.ip6_addr
  pub enforce_statfs : StatfsValid c.enforce_statfs

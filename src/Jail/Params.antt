-- ===== src/Jail/Params.antt =====
-- jail/params.go: the parameters of jail_set(2) for a new jail. `parse_addr` is netip.ParseAddr.
pub mod Layout
pub mod Settings
pub mod Valid
use runj.Prelude.{
  ℕ, String, Option, none, some, List, [], ◌∷◌, ◌++◌, not, Result, ok, err, ◌>>=◌, ◌>>◌, fail_if,
  ltb, ◌==◌, ◌!=◌, if◌then◌else◌, ◌||◌,
}
use runj.Text.Decimal.{ℤ, pos, negsuc}
use runj.Jail.Iovec.{
  ParamError, hostname_with_inherit, domainname_with_inherit, unknown_host, unknown_vnet,
  unknown_ip4, unknown_ip6, unparsed_ip4, unparsed_ip6, not_ip4, not_ip6, bad_enforce_statfs, Iovec,
  Addr, is4, is6, is4in6, string_iovec, int32_iovec, net_ip_iovec, nil_iovec,
}

pub record CreateParams : Type 0 where
  pub name : String
  pub root : String
  pub hostname : String
  pub domainname : String
  pub host : String
  pub ip4 : String
  pub ip4_addr : List String
  pub ip6 : String
  pub ip6_addr : List String
  pub vnet : String
  pub vnet_interface : List String
  pub enforce_statfs : Option ℤ

abbrev pub Block : Type 0
Block = Result ParamError (List Iovec)

-- A text that is passed on only where it is set.
unfoldable pub optional_string : String → String → Block
optional_string name value = if value != "" then string_iovec name value else ok []

host_mode : CreateParams → Result ParamError ℕ
host_mode c =
    if c.host == "new"
    then ok 1
    else if c.host == "inherit"
    then (do
      fail_if (c.hostname != "") hostname_with_inherit
      fail_if (c.domainname != "") domainname_with_inherit
      ok 2)
    else err unknown_host

unfoldable pub host_block : CreateParams → Block
unfolding host_mode
host_block c = if c.host != "" then (do m ← host_mode c; int32_iovec "host" m) else ok []

vnet_mode : String → Result ParamError ℕ
vnet_mode v = if v == "new" then ok 1 else if v == "inherit" then ok 2 else err unknown_vnet

unfoldable pub vnet_block : CreateParams → Block
unfolding vnet_mode
vnet_block c = if c.vnet != "" then (do m ← vnet_mode c.vnet; int32_iovec "vnet" m) else ok []

-- The three modes of ip4 and ip6.
ip_mode : ParamError → String → Result ParamError ℕ
ip_mode unknown v =
    if v == "disable"
    then ok 0
    else if v == "new"
    then ok 1
    else if v == "inherit"
    then ok 2
    else err unknown

unfoldable pub ip4_block : CreateParams → Block
unfolding ip_mode
ip4_block c = if c.ip4 != "" then (do m ← ip_mode unknown_ip4 c.ip4; int32_iovec "ip4" m) else ok []

unfoldable pub ip6_block : CreateParams → Block
unfolding ip_mode
ip6_block c = if c.ip6 != "" then (do m ← ip_mode unknown_ip6 c.ip6; int32_iovec "ip6" m) else ok []

unfoldable pub enforce_statfs_block : CreateParams → Block
enforce_statfs_block c = elim c.enforce_statfs [
  | none ↦ ok []
  | some (pos n) ↦ if ltb 2 n then err bad_enforce_statfs else int32_iovec "enforce_statfs" n
  | some (negsuc n) ↦ err bad_enforce_statfs
]

module _ (parse_addr : String → Option Addr) where
  ip4_of : String → Result ParamError Addr
  ip4_of s = elim (parse_addr s) [
    | none ↦ err unparsed_ip4
    | some a ↦ if not (is4 a) then err not_ip4 else ok a
  ]

  ip4_addrs : List String → Result ParamError (List Addr)
  unfolding ip4_of
  ip4_addrs [] = ok []
  ip4_addrs (s ∷ ss) = do a ← ip4_of s; more ← ip4_addrs ss; ok (a ∷ more)

  unfoldable pub ip4_addr_block : CreateParams → Block
  unfolding ip4_addrs
  ip4_addr_block c = elim c.ip4_addr [
    | [] ↦ ok []
    | s ∷ ss ↦ do addrs ← ip4_addrs (s ∷ ss); net_ip_iovec "ip4.addr" addrs
  ]

  ip6_of : String → Result ParamError Addr
  ip6_of s = elim (parse_addr s) [
    | none ↦ err unparsed_ip6
    | some a ↦ if not (is6 a) || is4in6 a then err not_ip6 else ok a
  ]

  ip6_addrs : List String → Result ParamError (List Addr)
  unfolding ip6_of
  ip6_addrs [] = ok []
  ip6_addrs (s ∷ ss) = do a ← ip6_of s; more ← ip6_addrs ss; ok (a ∷ more)

  unfoldable pub ip6_addr_block : CreateParams → Block
  unfolding ip6_addrs
  ip6_addr_block c = elim c.ip6_addr [
    | [] ↦ ok []
    | s ∷ ss ↦ do addrs ← ip6_addrs (s ∷ ss); net_ip_iovec "ip6.addr" addrs
  ]

  unfoldable pub iovec : CreateParams → Block
  iovec c = do
    name ← string_iovec "name" c.name
    root ← string_iovec "path" c.root
    hostname ← optional_string "host.hostname" c.hostname
    domainname ← optional_string "host.domainname" c.domainname
    host ← host_block c
    vnet ← vnet_block c
    ip4 ← ip4_block c
    ip4_addr ← ip4_addr_block c
    ip6 ← ip6_block c
    ip6_addr ← ip6_addr_block c
    statfs ← enforce_statfs_block c
    persist ← nil_iovec "persist"
    ok (
        name ++ root ++ hostname ++ domainname ++ host ++ vnet ++ ip4 ++ ip4_addr ++ ip6 ++ ip6_addr
        ++ statfs ++ persist)

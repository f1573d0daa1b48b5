-- ===== src/Oci.antt =====
-- The parts of an OCI bundle's config.json (runtimespec.Spec) and of runj.ext.json
-- (runtimespec/config.go) that the program reads. A pointer is an `Option`.
pub mod Merge
use runj.Prelude.{ℕ, String, Bool, Option, List}
use runj.Text.Decimal.{ℤ}

pub record Process : Type 0 where
  pub terminal : Bool
  pub args : List String
  pub env : List String

pub record Root : Type 0 where
  pub path : String

-- LinuxIDMapping
pub record IdMapping : Type 0 where
  pub container_id : ℕ
  pub host_id : ℕ
  pub size : ℕ

pub record Mount : Type 0 where
  pub destination : String
  pub type : String
  pub source : String
  pub options : List String
  pub uid_mappings : List IdMapping
  pub gid_mappings : List IdMapping

pub record Hook : Type 0 where
  pub path : String
  pub args : List String
  pub env : List String
  pub timeout : Option ℤ

pub record Hooks : Type 0 where
  pub create_runtime : List Hook
  pub poststop : List Hook

pub record FreeBsdJail : Type 0 where
  pub host : String
  pub ip4 : String
  pub ip4_addr : List String
  pub ip6 : String
  pub ip6_addr : List String
  pub vnet : String
  pub vnet_interfaces : List String
  pub enforce_statfs : Option ℤ

pub record FreeBsd : Type 0 where
  pub jail : Option FreeBsdJail

pub record Spec : Type 0 where
  pub version : String
  pub process : Option Process
  pub root : Option Root
  pub hostname : String
  pub domainname : String
  pub mounts : List Mount
  pub hooks : Option Hooks
  pub annotations : List (String × String)
  pub freebsd : Option FreeBsd

-- runj.ext.json
pub record ExtIpv4 : Type 0 where
  pub mode : String
  pub addr : List String

pub record ExtVnet : Type 0 where
  pub mode : String
  pub interfaces : List String

pub record ExtNetwork : Type 0 where
  pub ipv4 : Option ExtIpv4
  pub vnet : Option ExtVnet

pub record Ext : Type 0 where
  pub network : Option ExtNetwork

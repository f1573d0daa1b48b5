-- ===== src/Oci/Merge.antt =====
-- oci/config.go: `merge` puts the network section of runj.ext.json into a spec.
use runj.Prelude.{
  false, true, Bool, ◌≡◌, refl, String, Option, none, some, List, [], ◌∷◌, ◌++◌, append-nil, ◌!=◌,
  if◌then◌else◌, is_empty, not,
}
use runj.Oci.{FreeBsdJail, FreeBsd, Spec, ExtIpv4, ExtVnet, ExtNetwork, Ext}

-- &runtimespec.FreeBSDJail{}
abbrev pub no_jail : FreeBsdJail
no_jail = record {
  host = "";
  ip4 = "";
  ip4_addr = [];
  ip6 = "";
  ip6_addr = [];
  vnet = "";
  vnet_interfaces = [];
  enforce_statfs = none;
}

-- The jail section that a nil one is replaced by.
abbrev pub jail_or_new : Option FreeBsd → FreeBsdJail
jail_or_new none = no_jail
jail_or_new (some f) = elim f.jail [ none ↦ no_jail | some j ↦ j ]

merge_ipv4 : Option ExtIpv4 → FreeBsdJail → FreeBsdJail
merge_ipv4 none j = j
merge_ipv4 (some v) j =
    let moded = if v.mode != "" then record j { ip4 = v.mode } else j in
    if not (is_empty v.addr) then record moded { ip4_addr = moded.ip4_addr ++ v.addr } else moded

merge_vnet : Option ExtVnet → FreeBsdJail → FreeBsdJail
merge_vnet none j = j
merge_vnet (some v) j =
    let moded = if v.mode != "" then record j { vnet = v.mode } else j in
    if not (is_empty v.interfaces)
    then record moded { vnet_interfaces = moded.vnet_interfaces ++ v.interfaces }
    else moded

merge_network : Option ExtNetwork → FreeBsdJail → FreeBsdJail
unfolding merge_ipv4 merge_vnet
merge_network none j = j
merge_network (some n) j = merge_vnet n.vnet (merge_ipv4 n.ipv4 j)

unfoldable pub merge : Option Spec → Option Ext → Option Spec
unfolding merge_network
merge none e = none
merge (some s) none = some s
merge (some s) (some e) = some (record s {
  freebsd = some (record { jail = some (merge_network e.network (jail_or_new s.freebsd)) });
})

-- What the extension says of the network: a mode that is set replaces the spec's.
abbrev pub or_else : String → String → String
or_else new old = if new != "" then new else old

abbrev pub ipv4_of : Option ExtNetwork → Option ExtIpv4
ipv4_of none = none
ipv4_of (some n) = n.ipv4

abbrev pub vnet_of : Option ExtNetwork → Option ExtVnet
vnet_of none = none
vnet_of (some n) = n.vnet

abbrev pub ip4_of : Option ExtIpv4 → String
ip4_of none = ""
ip4_of (some v) = v.mode

abbrev pub ip4_addr_of : Option ExtIpv4 → List String
ip4_addr_of none = []
ip4_addr_of (some v) = v.addr

abbrev pub vnet_mode_of : Option ExtVnet → String
vnet_mode_of none = ""
vnet_mode_of (some v) = v.mode

abbrev pub interfaces_of : Option ExtVnet → List String
interfaces_of none = []
interfaces_of (some v) = v.interfaces

-- What a jail section becomes under an extension.
abbrev pub extended : Option ExtNetwork → FreeBsdJail → FreeBsdJail
extended n j = record j {
  ip4 = or_else (ip4_of (ipv4_of n)) j.ip4;
  ip4_addr = j.ip4_addr ++ ip4_addr_of (ipv4_of n);
  vnet = or_else (vnet_mode_of (vnet_of n)) j.vnet;
  vnet_interfaces = j.vnet_interfaces ++ interfaces_of (vnet_of n);
}

merge_ipv4_lem :
    (o : Option ExtIpv4) (j : FreeBsdJail)
    → merge_ipv4 o j
      ≡ record j { ip4 = or_else (ip4_of o) j.ip4; ip4_addr = j.ip4_addr ++ ip4_addr_of o }
unfolding merge_ipv4
merge_ipv4_lem none j = rw append-nil
merge_ipv4_lem (some v) j = go (v.mode != "") v.addr
  where
    go :
        (b : Bool) (l : List String)
        → (let moded = if b then record j { ip4 = v.mode } else j in
            if not (is_empty l) then record moded { ip4_addr = moded.ip4_addr ++ l } else moded)
          ≡ record j { ip4 = if b then v.mode else j.ip4; ip4_addr = j.ip4_addr ++ l }
    go true [] = rw append-nil
    go true (x ∷ l) = refl
    go false [] = rw append-nil
    go false (x ∷ l) = refl

merge_vnet_lem :
    (o : Option ExtVnet) (j : FreeBsdJail)
    → merge_vnet o j ≡ record j {
      vnet = or_else (vnet_mode_of o) j.vnet;
      vnet_interfaces = j.vnet_interfaces ++ interfaces_of o;
    }
unfolding merge_vnet
merge_vnet_lem none j = rw append-nil
merge_vnet_lem (some v) j = go (v.mode != "") v.interfaces
  where
    go :
        (b : Bool) (l : List String)
        → (let moded = if b then record j { vnet = v.mode } else j in
            if not (is_empty l)
            then record moded { vnet_interfaces = moded.vnet_interfaces ++ l }
            else moded)
          ≡ record j {
            vnet = if b then v.mode else j.vnet;
            vnet_interfaces = j.vnet_interfaces ++ l;
          }
    go true [] = rw append-nil
    go true (x ∷ l) = refl
    go false [] = rw append-nil
    go false (x ∷ l) = refl

merge_network_lem : (n : Option ExtNetwork) (j : FreeBsdJail) → merge_network n j ≡ extended n j
unfolding merge_network
merge_network_lem none j = simp append-nil
merge_network_lem (some n) j = rw (merge_ipv4_lem n.ipv4 j) (merge_vnet_lem n.vnet _)

-- The spec after the merge: the two modes are the extension's where it sets them, its addresses
-- and interfaces follow the spec's own, and every other field of the spec and of its jail section
-- is as it was (that of an absent section: empty).
pub merge_lem :
    (s : Spec) (e : Ext)
    → merge (some s) (some e)
      ≡ some (record s {
        freebsd = some (record { jail = some (extended e.network (jail_or_new s.freebsd)) });
      })
unfolding merge
merge_lem s e = rw (merge_network_lem e.network (jail_or_new s.freebsd))

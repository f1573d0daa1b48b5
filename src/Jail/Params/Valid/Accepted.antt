-- ===== src/Jail/Params/Valid/Accepted.antt =====
-- jail/params.go: which configurations iovec accepts.
use runj.Prelude.{refl, ◌↔◌, String, Option, IsOk, IsOk-bind, bind-IsOk}
use runj.Text.{bytes, has_nul}
use runj.Jail.Iovec.{Addr, string_iovec}
use runj.Jail.Params.{
  iovec, CreateParams, optional_string, host_block, vnet_block, ip4_block, ip6_block,
  enforce_statfs_block, ip4_addr_block, ip6_addr_block,
}
use runj.Jail.Params.Valid.{IsValid}
use runj.Jail.Params.Valid.Blocks.{
  string_iovec-IsOk, nil_iovec-IsOk, optional_string-IsOk, host_block-IsOk, vnet_block-IsOk,
  ip4_block-IsOk, ip6_block-IsOk, statfs_block-IsOk,
}
use runj.Jail.Params.Valid.Addresses.{ip4_addr_block-IsOk, ip6_addr_block-IsOk}

module _ (parse_addr : String → Option Addr) where
  accepted-IsValid : (c : CreateParams) → IsOk (iovec parse_addr c) → IsValid parse_addr c
  unfolding iovec has_nul bytes
  accepted-IsValid c h0 =
      let (k0, (r0, _, h1)) = bind-IsOk (string_iovec "name" c.name) _ h0 in
      let (k1, (r1, _, h2)) = bind-IsOk (string_iovec "path" c.root) _ h1 in
      let (k2, (r2, _, h3)) = bind-IsOk (optional_string "host.hostname" c.hostname) _ h2 in
      let (k3, (r3, _, h4)) = bind-IsOk (optional_string "host.domainname" c.domainname) _ h3 in
      let (k4, (r4, _, h5)) = bind-IsOk (host_block c) _ h4 in
      let (k5, (r5, _, h6)) = bind-IsOk (vnet_block c) _ h5 in
      let (k6, (r6, _, h7)) = bind-IsOk (ip4_block c) _ h6 in
      let (k7, (r7, _, h8)) = bind-IsOk (ip4_addr_block parse_addr c) _ h7 in
      let (k8, (r8, _, h9)) = bind-IsOk (ip6_block c) _ h8 in
      let (k9, (r9, _, h10)) = bind-IsOk (ip6_addr_block parse_addr c) _ h9 in
      let (k10, (r10, _, h11)) = bind-IsOk (enforce_statfs_block c) _ h10 in
      record {
        name = (string_iovec-IsOk "name" c.name refl).0 k0;
        root = (string_iovec-IsOk "path" c.root refl).0 k1;
        hostname = (optional_string-IsOk "host.hostname" c.hostname refl).0 k2;
        domainname = (optional_string-IsOk "host.domainname" c.domainname refl).0 k3;
        host = (host_block-IsOk c).0 k4;
        vnet = (vnet_block-IsOk c).0 k5;
        ip4 = (ip4_block-IsOk c).0 k6;
        ip4_addr = (ip4_addr_block-IsOk parse_addr c).0 k7;
        ip6 = (ip6_block-IsOk c).0 k8;
        ip6_addr = (ip6_addr_block-IsOk parse_addr c).0 k9;
        enforce_statfs = (statfs_block-IsOk c).0 k10;
      }

  IsValid-accepted : (c : CreateParams) → IsValid parse_addr c → IsOk (iovec parse_addr c)
  unfolding iovec has_nul bytes
  IsValid-accepted c h = IsOk-bind _ _ ((string_iovec-IsOk "name" c.name refl).1 h.name) λ v0 e0.
      IsOk-bind _ _ ((string_iovec-IsOk "path" c.root refl).1 h.root) λ v1 e1.
        IsOk-bind _ _ ((optional_string-IsOk "host.hostname" c.hostname refl).1 h.hostname) λ v2 e2.
          IsOk-bind _ _ ((optional_string-IsOk "host.domainname" c.domainname refl).1 h.domainname)
            λ v3 e3. IsOk-bind _ _ ((host_block-IsOk c).1 h.host) λ v4 e4.
              IsOk-bind _ _ ((vnet_block-IsOk c).1 h.vnet) λ v5 e5.
                IsOk-bind _ _ ((ip4_block-IsOk c).1 h.ip4) λ v6 e6.
                  IsOk-bind _ _ ((ip4_addr_block-IsOk parse_addr c).1 h.ip4_addr) λ v7 e7.
                    IsOk-bind _ _ ((ip6_block-IsOk c).1 h.ip6) λ v8 e8.
                      IsOk-bind _ _ ((ip6_addr_block-IsOk parse_addr c).1 h.ip6_addr) λ v9 e9.
                        IsOk-bind _ _ ((statfs_block-IsOk c).1 h.enforce_statfs)
                          λ v10 e10. IsOk-bind _ _ (nil_iovec-IsOk "persist" refl) λ v e. tt

  -- iovec succeeds exactly on the configurations that are valid: no text has a NUL byte, the modes
  -- are those of jail(8), `inherit` for the host comes without a host and a domain name, every
  -- IPv4 address parses as one, every IPv6 address as one that is not IPv4-mapped, and
  -- enforce_statfs is 0, 1 or 2 where it is set.
  pub iovec-IsOk : (c : CreateParams) → IsOk (iovec parse_addr c) ↔ IsValid parse_addr c
  iovec-IsOk c = (accepted-IsValid c, IsValid-accepted c)

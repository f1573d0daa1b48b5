-- ===== src/Jail/Params/Layout.antt =====
-- jail/params.go: what CreateParams.iovec hands to jail_set(2) is well formed.
use runj.Prelude.{
  true, false, ap, if◌then◌else◌, ◌!=◌, Bool, ◌≢◌, String, Option, none, some, List, [], ◌∷◌, arith,
  Result, ok, err, ◌>>=◌, ℕ,
}
use runj.Text.Decimal.{pos, negsuc}
use runj.Jail.Iovec.{
  int32_iovec, net_ip_iovec, Addr, ParamError, index_out_of_range, unknown_ip4, unknown_ip6,
}
use runj.Jail.Iovec.Shape.{
  WellFormed, WellFormed-bind, Pairs-append, string_iovec-WellFormed, int32_iovec-WellFormed,
  nil_iovec-WellFormed, net_ip_iovec-WellFormed,
}
use runj.Jail.Params.{
  CreateParams, optional_string, host_block, host_mode, vnet_block, vnet_mode, ip_mode, ip4_block,
  ip6_block, enforce_statfs_block, ip4_addr_block, ip6_addr_block, ip4_of, ip6_of, ip4_addrs,
  ip6_addrs, iovec,
}

optional_string-WellFormed : (name value : String) → WellFormed (optional_string name value)
unfolding optional_string
optional_string-WellFormed name value = ground (arith, string_iovec-WellFormed name value)

-- A mode is looked up and passed on, where one is set.
mode-WellFormed :
    (set : Bool) (m : Result ParamError ℕ) (name : String)
    → m ≢ err index_out_of_range
    → WellFormed (if set then m >>= int32_iovec name else ok [])
mode-WellFormed true (ok n) name h = int32_iovec-WellFormed name n
mode-WellFormed true (err e) name h = λ p. h (ap err p)
mode-WellFormed false m name h = tt

host_mode-no_panic : (c : CreateParams) → host_mode c ≢ err index_out_of_range
unfolding host_mode
host_mode-no_panic c = ground arith

vnet_mode-no_panic : (v : String) → vnet_mode v ≢ err index_out_of_range
unfolding vnet_mode
vnet_mode-no_panic v = ground arith

ip_mode-no_panic :
    (e : ParamError) (v : String) → e ≢ index_out_of_range → ip_mode e v ≢ err index_out_of_range
unfolding ip_mode
ip_mode-no_panic e v h = ground arith

host_block-WellFormed : (c : CreateParams) → WellFormed (host_block c)
unfolding host_block
host_block-WellFormed c = mode-WellFormed (c.host != "") _ "host" (host_mode-no_panic c)

vnet_block-WellFormed : (c : CreateParams) → WellFormed (vnet_block c)
unfolding vnet_block
vnet_block-WellFormed c = mode-WellFormed (c.vnet != "") _ "vnet" (vnet_mode-no_panic c.vnet)

ip4_block-WellFormed : (c : CreateParams) → WellFormed (ip4_block c)
unfolding ip4_block
ip4_block-WellFormed c =
    mode-WellFormed (c.ip4 != "") _ "ip4" (ip_mode-no_panic unknown_ip4 c.ip4 (λ e. cc))

ip6_block-WellFormed : (c : CreateParams) → WellFormed (ip6_block c)
unfolding ip6_block
ip6_block-WellFormed c =
    mode-WellFormed (c.ip6 != "") _ "ip6" (ip_mode-no_panic unknown_ip6 c.ip6 (λ e. cc))

statfs_block-WellFormed : (c : CreateParams) → WellFormed (enforce_statfs_block c)
unfolding enforce_statfs_block
statfs_block-WellFormed c =
    elim c.enforce_statfs
      as (λ o. WellFormed (enforce_statfs_block (record c { enforce_statfs = o }))) [
        | none ↦ tt
        | some (pos n) ↦ ground (arith, int32_iovec-WellFormed "enforce_statfs" n)
        | some (negsuc n) ↦ λ e. cc
      ]

-- One more address, and the buffer of them all.
addrs-WellFormed :
    (m : Result ParamError Addr) (r : Result ParamError (List Addr)) (name : String)
    → m ≢ err index_out_of_range
    → r ≢ err index_out_of_range
    → WellFormed ((do a ← m; more ← r; ok (a ∷ more)) >>= net_ip_iovec name)
addrs-WellFormed (err e) r name hm hr = λ p. hm (ap err p)
addrs-WellFormed (ok a) (err e) name hm hr = λ p. hr (ap err p)
addrs-WellFormed (ok a) (ok more) name hm hr = net_ip_iovec-WellFormed name (a ∷ more) (omega arith)

module _ (parse_addr : String → Option Addr) where
  ip4_of-no_panic : (s : String) → ip4_of parse_addr s ≢ err index_out_of_range
  unfolding ip4_of
  ip4_of-no_panic s = ground arith

  ip6_of-no_panic : (s : String) → ip6_of parse_addr s ≢ err index_out_of_range
  unfolding ip6_of
  ip6_of-no_panic s = ground arith

  ip4_addrs-no_panic : (l : List String) → ip4_addrs parse_addr l ≢ err index_out_of_range
  unfolding ip4_addrs
  ip4_addrs-no_panic [] = λ e. cc
  ip4_addrs-no_panic (s ∷ l) = ground (arith, ip4_addrs-no_panic l)

  ip6_addrs-no_panic : (l : List String) → ip6_addrs parse_addr l ≢ err index_out_of_range
  unfolding ip6_addrs
  ip6_addrs-no_panic [] = λ e. cc
  ip6_addrs-no_panic (s ∷ l) = ground (arith, ip6_addrs-no_panic l)

  ip4_addr_block-WellFormed : (c : CreateParams) → WellFormed (ip4_addr_block parse_addr c)
  unfolding ip4_addr_block
  ip4_addr_block-WellFormed c = go c.ip4_addr
    where
      go : (l : List String) → WellFormed (ip4_addr_block parse_addr (record c { ip4_addr = l }))
      go [] = tt
      go (s ∷ l) = addrs-WellFormed _ _ "ip4.addr" (ip4_of-no_panic s) (ip4_addrs-no_panic l)

  ip6_addr_block-WellFormed : (c : CreateParams) → WellFormed (ip6_addr_block parse_addr c)
  unfolding ip6_addr_block
  ip6_addr_block-WellFormed c = go c.ip6_addr
    where
      go : (l : List String) → WellFormed (ip6_addr_block parse_addr (record c { ip6_addr = l }))
      go [] = tt
      go (s ∷ l) = addrs-WellFormed _ _ "ip6.addr" (ip6_of-no_panic s) (ip6_addrs-no_panic l)

  -- Whatever netip.ParseAddr answers, iovec does not panic, and the buffers that it returns are
  -- in pairs, each passed with its own length and a nil buffer with length 0.
  pub iovec-WellFormed : (c : CreateParams) → WellFormed (iovec parse_addr c)
  unfolding iovec
  iovec-WellFormed c = WellFormed-bind _ _ (string_iovec-WellFormed "name" c.name) λ v1 p1.
      WellFormed-bind _ _ (string_iovec-WellFormed "path" c.root) λ v2 p2.
        WellFormed-bind _ _ (optional_string-WellFormed "host.hostname" c.hostname) λ v3 p3.
          WellFormed-bind _ _ (optional_string-WellFormed "host.domainname" c.domainname) λ v4 p4.
            WellFormed-bind _ _ (host_block-WellFormed c) λ v5 p5.
              WellFormed-bind _ _ (vnet_block-WellFormed c) λ v6 p6.
                WellFormed-bind _ _ (ip4_block-WellFormed c) λ v7 p7.
                  WellFormed-bind _ _ (ip4_addr_block-WellFormed c) λ v8 p8.
                    WellFormed-bind _ _ (ip6_block-WellFormed c) λ v9 p9.
                      WellFormed-bind _ _ (ip6_addr_block-WellFormed c) λ v10 p10.
                        WellFormed-bind _ _ (statfs_block-WellFormed c) λ v11 p11.
                          WellFormed-bind _ _ (nil_iovec-WellFormed "persist")
                            λ v12 p12. search Pairs-append depth 14

-- ===== src/Jail/Params/Valid/Addresses.antt =====
-- jail/params.go: when the blocks of addresses succeed.
use runj.Prelude.{
  suc, bind-eq-ok, Result-ok, length, ◌≡◌, refl, ap, ◌↔◌, String, true, false, Option, none, some,
  List, [], ◌∷◌, arith, Result, ok, err, ◌>>=◌, All, IsOk, IsOk-bind, bind-IsOk,
}
use runj.Text.{bytes, has_nul}
use runj.Jail.Iovec.{is6, Addr, v4, v6, ParamError}
use runj.Jail.Iovec.Shape.{net_ip_iovec-IsOk}
use runj.Jail.Params.{
  CreateParams, ip4_addr_block, ip6_addr_block, ip4_of, ip6_of, ip4_addrs, ip6_addrs,
}
use runj.Jail.Params.Valid.{IsIp4, IsIp6}

chain-IsOk :
    (m : Result ParamError Addr) (r : Result ParamError (List Addr))
    → IsOk (do a ← m; more ← r; ok (a ∷ more)) ↔ (IsOk m × IsOk r)
chain-IsOk (ok a) (ok more) = (λ h. (tt, tt), λ h. tt)
chain-IsOk (ok a) (err e) = (λ h. elim h [ ], λ h. h.1)
chain-IsOk (err e) r = (λ h. elim h [ ], λ h. h.0)

module _ (parse_addr : String → Option Addr) where
  ip4_of-IsOk : (s : String) → IsOk (ip4_of parse_addr s) ↔ IsIp4 parse_addr s
  unfolding ip4_of
  ip4_of-IsOk s = elim (parse_addr s) as (λ o. IsOk (ip4_of (λ _. o) s) ↔ IsIp4 (λ _. o) s) [
    | none ↦ (λ h. elim h [ ], λ h. ground arith)
    | some (v4 n) ↦ (λ h. (n, refl), λ h. tt)
    | some (v6 n) ↦ (λ h. elim h [ ], λ h. ground arith)
  ]

  ip6_of-IsOk : (s : String) → IsOk (ip6_of parse_addr s) ↔ IsIp6 parse_addr s
  unfolding ip6_of
  ip6_of-IsOk s = elim (parse_addr s) as (λ o. IsOk (ip6_of (λ _. o) s) ↔ IsIp6 (λ _. o) s) [
    | none ↦ (λ h. elim h [ ], λ h. ground arith)
    | some (v4 n) ↦ (λ h. elim h [ ], λ h. ground arith)
    | some (v6 n) ↦ (λ h. (n, refl, ground arith), λ h. ground arith)
  ]

  ip4_of-family : (s : String) (a : Addr) → ip4_of parse_addr s ≡ ok a → is6 a ≡ false
  unfolding ip4_of
  ip4_of-family s a h = ground arith

  ip4_addrs-IsOk : (l : List String) → IsOk (ip4_addrs parse_addr l) ↔ All (IsIp4 parse_addr) l
  unfolding ip4_addrs
  ip4_addrs-IsOk [] = (λ h. tt, λ h. tt)
  ip4_addrs-IsOk (s ∷ l) =
      let here = ip4_of-IsOk s in
      let rest = ip4_addrs-IsOk l in
      let both = chain-IsOk (ip4_of parse_addr s) (ip4_addrs parse_addr l) in
      (λ h. (here.0 (both.0 h).0, rest.0 (both.0 h).1), λ h. both.1 (here.1 h.0, rest.1 h.1))

  ip4_addrs-family :
      (l : List String) (r : List Addr)
      → ip4_addrs parse_addr l ≡ ok r
      → All (λ a. is6 a ≡ false) r × (length r ≡ length l)
  unfolding ip4_addrs
  ip4_addrs-family [] r h = rw (← Result-ok h) (tt, refl)
  ip4_addrs-family (s ∷ l) r h =
      let (a, ha, h1) = bind-eq-ok (ip4_of parse_addr s) _ h in
      let (more, hm, h2) = bind-eq-ok (ip4_addrs parse_addr l) _ h1 in
      let rest = ip4_addrs-family l more hm in
      rw (← Result-ok h2) ((ip4_of-family s a ha, rest.0), ap suc rest.1)

  pub ip4_addr_block-IsOk :
      (c : CreateParams) → IsOk (ip4_addr_block parse_addr c) ↔ All (IsIp4 parse_addr) c.ip4_addr
  unfolding ip4_addr_block has_nul bytes
  ip4_addr_block-IsOk c = go c.ip4_addr
    where
      go :
          (l : List String)
          → IsOk (ip4_addr_block parse_addr (record c { ip4_addr = l })) ↔ All (IsIp4 parse_addr) l
      go [] = (λ h. tt, λ h. tt)
      go (s ∷ l) = (
        λ h. (ip4_addrs-IsOk (s ∷ l)).0 (bind-IsOk (ip4_addrs parse_addr (s ∷ l)) _ h).0,
        λ h. IsOk-bind (ip4_addrs parse_addr (s ∷ l)) _ ((ip4_addrs-IsOk (s ∷ l)).1 h) λ r e.
            let f = ip4_addrs-family (s ∷ l) r e in
            net_ip_iovec-IsOk "ip4.addr" false r refl (omega (arith, f.1)) f.0,
      )

  ip6_of-family : (s : String) (a : Addr) → ip6_of parse_addr s ≡ ok a → is6 a ≡ true
  unfolding ip6_of
  ip6_of-family s a h = ground arith

  ip6_addrs-IsOk : (l : List String) → IsOk (ip6_addrs parse_addr l) ↔ All (IsIp6 parse_addr) l
  unfolding ip6_addrs
  ip6_addrs-IsOk [] = (λ h. tt, λ h. tt)
  ip6_addrs-IsOk (s ∷ l) =
      let here = ip6_of-IsOk s in
      let rest = ip6_addrs-IsOk l in
      let both = chain-IsOk (ip6_of parse_addr s) (ip6_addrs parse_addr l) in
      (λ h. (here.0 (both.0 h).0, rest.0 (both.0 h).1), λ h. both.1 (here.1 h.0, rest.1 h.1))

  ip6_addrs-family :
      (l : List String) (r : List Addr)
      → ip6_addrs parse_addr l ≡ ok r
      → All (λ a. is6 a ≡ true) r × (length r ≡ length l)
  unfolding ip6_addrs
  ip6_addrs-family [] r h = rw (← Result-ok h) (tt, refl)
  ip6_addrs-family (s ∷ l) r h =
      let (a, ha, h1) = bind-eq-ok (ip6_of parse_addr s) _ h in
      let (more, hm, h2) = bind-eq-ok (ip6_addrs parse_addr l) _ h1 in
      let rest = ip6_addrs-family l more hm in
      rw (← Result-ok h2) ((ip6_of-family s a ha, rest.0), ap suc rest.1)

  pub ip6_addr_block-IsOk :
      (c : CreateParams) → IsOk (ip6_addr_block parse_addr c) ↔ All (IsIp6 parse_addr) c.ip6_addr
  unfolding ip6_addr_block has_nul bytes
  ip6_addr_block-IsOk c = go c.ip6_addr
    where
      go :
          (l : List String)
          → IsOk (ip6_addr_block parse_addr (record c { ip6_addr = l })) ↔ All (IsIp6 parse_addr) l
      go [] = (λ h. tt, λ h. tt)
      go (s ∷ l) = (
        λ h. (ip6_addrs-IsOk (s ∷ l)).0 (bind-IsOk (ip6_addrs parse_addr (s ∷ l)) _ h).0,
        λ h. IsOk-bind (ip6_addrs parse_addr (s ∷ l)) _ ((ip6_addrs-IsOk (s ∷ l)).1 h) λ r e.
            let f = ip6_addrs-family (s ∷ l) r e in
            net_ip_iovec-IsOk "ip6.addr" true r refl (omega (arith, f.1)) f.0,
      )

-- ===== src/Jail/Params/Settings/Addresses.antt =====
-- jail/params.go: what the blocks of addresses set.
use runj.Prelude.{
  bind-eq-ok, ◌≡◌, refl, String, Option, some, List, [], ◌∷◌, arith, ok, err, is_empty, not,
}
use runj.Jail.Iovec.{net_ip_iovec, make_iovec, Iovec, Addr}
use runj.Jail.Iovec.Shape.{net_ip_iovec-eq, all_bytes, Block}
use runj.Jail.Params.{
  ip4_addr_block, ip6_addr_block, ip4_of, ip4_addrs, ip6_addrs, ip6_of, CreateParams,
}
use runj.Jail.Params.Settings.{addr_value, Encodes, EncodesOk, when}

net_ip_iovec-Encodes :
    (name : String) (l : List Addr) (v : List Iovec)
    → net_ip_iovec name l ≡ ok v
    → Encodes ((name, some (all_bytes l)) ∷ []) v
unfolding make_iovec
net_ip_iovec-Encodes name l v h = rw (net_ip_iovec-eq name l v h) (refl, refl, tt)

module _ (parse_addr : String → Option Addr) where
  ip4_of-bytes : (s : String) (a : Addr) → ip4_of parse_addr s ≡ ok a → parse_addr s ≡ some a
  unfolding ip4_of
  ip4_of-bytes s a h = ground arith

  ip6_of-bytes : (s : String) (a : Addr) → ip6_of parse_addr s ≡ ok a → parse_addr s ≡ some a
  unfolding ip6_of
  ip6_of-bytes s a h = ground arith

  ip4_addrs-bytes :
      (l : List String) (r : List Addr)
      → ip4_addrs parse_addr l ≡ ok r
      → all_bytes r ≡ addr_value parse_addr l
  unfolding ip4_addrs
  ip4_addrs-bytes [] r h = ground arith
  ip4_addrs-bytes (s ∷ l) r h =
      let (a, ha, h1) = bind-eq-ok (ip4_of parse_addr s) _ h in
      let (more, hm, h2) = bind-eq-ok (ip4_addrs parse_addr l) _ h1 in
      rw (ip4_of-bytes s a ha) (ground (arith, ip4_addrs-bytes l more hm))

  ip6_addrs-bytes :
      (l : List String) (r : List Addr)
      → ip6_addrs parse_addr l ≡ ok r
      → all_bytes r ≡ addr_value parse_addr l
  unfolding ip6_addrs
  ip6_addrs-bytes [] r h = ground arith
  ip6_addrs-bytes (s ∷ l) r h =
      let (a, ha, h1) = bind-eq-ok (ip6_of parse_addr s) _ h in
      let (more, hm, h2) = bind-eq-ok (ip6_addrs parse_addr l) _ h1 in
      rw (ip6_of-bytes s a ha) (ground (arith, ip6_addrs-bytes l more hm))

  pub ip4_addr_block-Encodes :
      (c : CreateParams)
      → EncodesOk
          (when (not (is_empty c.ip4_addr)) "ip4.addr" (some (addr_value parse_addr c.ip4_addr)))
          (ip4_addr_block parse_addr c)
  unfolding ip4_addr_block
  ip4_addr_block-Encodes c = go c.ip4_addr
    where
      listed :
          (l : List String) (m : Block)
          → ((v : List Iovec)
              → m ≡ ok v
              → Encodes (("ip4.addr", some (addr_value parse_addr l)) ∷ []) v)
          → EncodesOk (("ip4.addr", some (addr_value parse_addr l)) ∷ []) m
      listed l (ok v) h = h v refl
      listed l (err e) h = tt

      go :
          (l : List String)
          → EncodesOk
              (when (not (is_empty l)) "ip4.addr" (some (addr_value parse_addr l)))
              (ip4_addr_block parse_addr (record c { ip4_addr = l }))
      go [] = tt
      go (s ∷ l) = listed (s ∷ l) _ λ v h.
          let (r, hr, h1) = bind-eq-ok (ip4_addrs parse_addr (s ∷ l)) (net_ip_iovec "ip4.addr") h in
          rw (← ip4_addrs-bytes (s ∷ l) r hr) (net_ip_iovec-Encodes "ip4.addr" r v h1)

  pub ip6_addr_block-Encodes :
      (c : CreateParams)
      → EncodesOk
          (when (not (is_empty c.ip6_addr)) "ip6.addr" (some (addr_value parse_addr c.ip6_addr)))
          (ip6_addr_block parse_addr c)
  unfolding ip6_addr_block
  ip6_addr_block-Encodes c = go c.ip6_addr
    where
      listed :
          (l : List String) (m : Block)
          → ((v : List Iovec)
              → m ≡ ok v
              → Encodes (("ip6.addr", some (addr_value parse_addr l)) ∷ []) v)
          → EncodesOk (("ip6.addr", some (addr_value parse_addr l)) ∷ []) m
      listed l (ok v) h = h v refl
      listed l (err e) h = tt

      go :
          (l : List String)
          → EncodesOk
              (when (not (is_empty l)) "ip6.addr" (some (addr_value parse_addr l)))
              (ip6_addr_block parse_addr (record c { ip6_addr = l }))
      go [] = tt
      go (s ∷ l) = listed (s ∷ l) _ λ v h.
          let (r, hr, h1) = bind-eq-ok (ip6_addrs parse_addr (s ∷ l)) (net_ip_iovec "ip6.addr") h in
          rw (← ip6_addrs-bytes (s ∷ l) r hr) (net_ip_iovec-Encodes "ip6.addr" r v h1)

-- ===== src/Jail/Params/Settings/Table.antt =====
-- jail/params.go: what the buffers of iovec set.
use runj.Prelude.{subst, ◌≡◌, String, Option, none, List, [], ◌∷◌, ok}
use runj.Jail.Iovec.{Iovec, Addr}
use runj.Jail.Params.{iovec, CreateParams}
use runj.Jail.Params.Settings.{c_string, Encodes, EncodesOk, settings, EncodesOk-bind, ◌▷◌}
use runj.Jail.Params.Settings.Blocks.{
  string_iovec-Encodes, nil_iovec-Encodes, optional_string-Encodes, host_block-Encodes,
  vnet_block-Encodes, ip4_block-Encodes, ip6_block-Encodes, statfs_block-Encodes,
}
use runj.Jail.Params.Settings.Addresses.{ip4_addr_block-Encodes, ip6_addr_block-Encodes}

module _ (parse_addr : String → Option Addr) where
  iovec-EncodesOk : (c : CreateParams) → EncodesOk (settings parse_addr c) (iovec parse_addr c)
  unfolding iovec
  iovec-EncodesOk c =
      let all = settings parse_addr c in
      EncodesOk-bind (("name", c_string c.name) ∷ []) all _ _ (string_iovec-Encodes "name" c.name)
        λ v1 p1.
          EncodesOk-bind (("path", c_string c.root) ∷ []) all _ _
            (string_iovec-Encodes "path" c.root)
            λ v2 p2.
              EncodesOk-bind _ all _ _ (optional_string-Encodes "host.hostname" c.hostname) λ v3 p3.
                EncodesOk-bind _ all _ _ (optional_string-Encodes "host.domainname" c.domainname)
                  λ v4 p4. EncodesOk-bind _ all _ _ (host_block-Encodes c) λ v5 p5.
                    EncodesOk-bind _ all _ _ (vnet_block-Encodes c) λ v6 p6.
                      EncodesOk-bind _ all _ _ (ip4_block-Encodes c) λ v7 p7.
                        EncodesOk-bind _ all _ _ (ip4_addr_block-Encodes parse_addr c) λ v8 p8.
                          EncodesOk-bind _ all _ _ (ip6_block-Encodes c) λ v9 p9.
                            EncodesOk-bind _ all _ _ (ip6_addr_block-Encodes parse_addr c)
                              λ v10 p10.
                                EncodesOk-bind _ all _ _ (statfs_block-Encodes c) λ v11 p11.
                                  EncodesOk-bind (("persist", none) ∷ []) all _ _
                                    (nil_iovec-Encodes "persist")
                                    λ v12 p12.
                                      (p1 ▷ p2 ▷ p3 ▷ p4 ▷ p5 ▷ p6 ▷ p7 ▷ p8 ▷ p9 ▷ p10 ▷ p11
                                        ▷ p12).holds

  -- Where iovec accepts a configuration, the buffers set exactly the parameters that the
  -- configuration asks for, in the order of the table and to its values.
  pub iovec-settings :
      (c : CreateParams) (v : List Iovec)
      → iovec parse_addr c ≡ ok v
      → Encodes (settings parse_addr c) v
  iovec-settings c v h = subst (EncodesOk (settings parse_addr c)) h (iovec-EncodesOk c)

-- ===== src/Jail/Params/Settings.antt =====
-- jail/params.go against a table: which parameters of jail(8) the buffers set, and to what.
pub mod Blocks
pub mod Addresses
pub mod Table
use runj.Prelude.{
  subst, bind-eq-ok, ◌≢◌, eq_iff, ℕ, ◌≡◌, refl, String, Bool, true, false, Option, none, some, List,
  [], ◌∷◌, ◌++◌, arith, Result, ok, err, ◌>>=◌, ◌==◌, ◌!=◌, if◌then◌else◌, is_empty, not,
}
use runj.Text.{bytes}
use runj.Text.Decimal.{ℤ, pos}
use runj.Jail.Iovec.{
  net_ip_iovec, make_iovec, unknown_ip4, unknown_ip6, Iovec, Addr, ParamError, as_slice, le_bytes32,
  string_iovec, int32_iovec, nil_iovec,
}
use runj.Jail.Iovec.Shape.{net_ip_iovec-eq, all_bytes, Block}
use runj.Jail.Params.{
  iovec, ip4_addr_block, ip6_addr_block, ip4_of, ip4_addrs, ip6_addrs, ip6_of, negsuc,
  enforce_statfs_block, ip6_block, host_block, vnet_block, ip4_block, CreateParams, optional_string,
  host_mode, vnet_mode, ip_mode,
}

-- A parameter's name, and the value's bytes, `none` for a parameter without a value.
abbrev pub Setting : Type 0
Setting = String × Option (List ℕ)

-- The buffers are those of the settings, in order.
abbrev pub Encodes : List Setting → List Iovec → Type 0
Encodes [] [] = Unit
Encodes ((k, x) ∷ ks) (n ∷ v ∷ rest) =
    (n.base ≡ some (bytes k ++ 0 ∷ [])) × (v.base ≡ x) × Encodes ks rest
Encodes _ _ = ⊥

abbrev pub EncodesOk : List Setting → Block → Type 0
EncodesOk ks (ok v) = Encodes ks v
EncodesOk ks (err e) = Unit

abbrev pub c_string : String → Option (List ℕ)
c_string s = some (bytes s ++ 0 ∷ [])

abbrev pub when : Bool → String → Option (List ℕ) → List Setting
when b k x = if b then (k, x) ∷ [] else []

-- The numbers of jail(8)'s modes; no other text than these three is accepted.
abbrev pub mode_number : String → ℕ
mode_number s = if s == "new" then 1 else if s == "inherit" then 2 else 0

abbrev pub int_value : ℕ → Option (List ℕ)
int_value n = some (le_bytes32 n)

-- The bytes of the addresses, one after another.
abbrev pub addr_value : (String → Option Addr) → List String → List ℕ
addr_value parse_addr [] = []
addr_value parse_addr (s ∷ l) =
    elim (parse_addr s) [ none ↦ [] | some a ↦ as_slice a ] ++ addr_value parse_addr l

abbrev pub statfs_settings : Option ℤ → List Setting
statfs_settings (some (pos n)) = ("enforce_statfs", int_value n) ∷ []
statfs_settings _ = []

-- What a configuration asks for.
abbrev pub settings : (String → Option Addr) → CreateParams → List Setting
settings parse_addr c =
    ("name", c_string c.name) ∷ []
    ++ ("path", c_string c.root) ∷ []
    ++ when (c.hostname != "") "host.hostname" (c_string c.hostname)
    ++ when (c.domainname != "") "host.domainname" (c_string c.domainname)
    ++ when (c.host != "") "host" (int_value (mode_number c.host))
    ++ when (c.vnet != "") "vnet" (int_value (mode_number c.vnet))
    ++ when (c.ip4 != "") "ip4" (int_value (mode_number c.ip4))
    ++ when (not (is_empty c.ip4_addr)) "ip4.addr" (some (addr_value parse_addr c.ip4_addr))
    ++ when (c.ip6 != "") "ip6" (int_value (mode_number c.ip6))
    ++ when (not (is_empty c.ip6_addr)) "ip6.addr" (some (addr_value parse_addr c.ip6_addr))
    ++ statfs_settings c.enforce_statfs
    ++ ("persist", none) ∷ []

pub Encodes-append :
    (ks js : List Setting) (xs ys : List Iovec)
    → Encodes ks xs
    → Encodes js ys
    → Encodes (ks ++ js) (xs ++ ys)
Encodes-append [] js [] ys hx hy = hy
Encodes-append [] js (x ∷ xs) ys hx hy = elim hx [ ]
Encodes-append (k ∷ ks) js [] ys hx hy = elim hx [ ]
Encodes-append (k ∷ ks) js (n ∷ []) ys hx hy = elim hx [ ]
Encodes-append (k ∷ ks) js (n ∷ v ∷ xs) ys hx hy = (hx.0, hx.1, Encodes-append ks js xs ys hx.2 hy)

-- The same as a record, which shows the settings and the buffers where they are concrete.
pub record Encoded (ks : List Setting) (v : List Iovec) : Type 0 where
  holds : Encodes ks v

infixl 20 ◌▷◌
pub ◌▷◌ :
    {ks js : List Setting} {xs ys : List Iovec}
    → Encoded ks xs
    → Encoded js ys
    → Encoded (ks ++ js) (xs ++ ys)
p ▷ q = record { holds = Encodes-append _ _ _ _ p.holds q.holds }

pub EncodesOk-bind :
    (ks js : List Setting) (m : Block) (f : List Iovec → Block)
    → EncodesOk ks m
    → ((v : List Iovec) → Encoded ks v → EncodesOk js (f v))
    → EncodesOk js (m >>= f)
EncodesOk-bind ks js (ok v) f hm hf = hf v (record { holds = hm })
EncodesOk-bind ks js (err e) f hm hf = tt

-- ===== src/Jail/Params/Valid/Blocks.antt =====
-- jail/params.go: when each block of iovec but those of addresses succeeds.
use runj.Prelude.{
  eq_iff, ℕ, ◌≡◌, refl, ◌↔◌, String, Bool, true, false, Option, none, some, [], arith, Result, ok,
  err, ◌>>=◌, inl, inr, ◌==◌, ◌!=◌, if◌then◌else◌, ◌⊎◌, IsOk,
}
use runj.Text.{bytes, has_nul}
use runj.Text.Decimal.{ℤ, pos, negsuc}
use runj.Jail.Iovec.{ParamError, unknown_ip4, unknown_ip6, string_iovec, int32_iovec, nil_iovec}
use runj.Jail.Params.{
  CreateParams, optional_string, host_block, host_mode, vnet_block, vnet_mode, ip_mode, ip4_block,
  ip6_block, enforce_statfs_block,
}
use runj.Jail.Params.Valid.{NoNul, HostValid, VnetValid, IpValid, StatfsValid}

pub string_iovec-IsOk :
    (name value : String) → NoNul name → IsOk (string_iovec name value) ↔ NoNul value
unfolding string_iovec
string_iovec-IsOk name value h = (λ k. ground arith, λ k. ground arith)

pub int32_iovec-IsOk : (name : String) (n : ℕ) → NoNul name → IsOk (int32_iovec name n)
unfolding int32_iovec
int32_iovec-IsOk name n h = ground arith

pub nil_iovec-IsOk : (name : String) → NoNul name → IsOk (nil_iovec name)
unfolding nil_iovec
nil_iovec-IsOk name h = ground arith

empty-NoNul : NoNul ""
unfolding has_nul bytes
empty-NoNul = refl

pub optional_string-IsOk :
    (name value : String) → NoNul name → IsOk (optional_string name value) ↔ NoNul value
unfolding optional_string
optional_string-IsOk name value h = (
  λ k. ground (arith, string_iovec-IsOk name value h, eq_iff value "", empty-NoNul),
  λ k. ground (arith, string_iovec-IsOk name value h),
)

mode-IsOk :
    (set : Bool) (m : Result ParamError ℕ) (name : String)
    → NoNul name
    → IsOk (if set then m >>= int32_iovec name else ok []) ↔ ((set ≡ false) ⊎ IsOk m)
mode-IsOk true (ok n) name h = (λ _. inr tt, λ _. int32_iovec-IsOk name n h)
mode-IsOk true (err e) name h = (λ k. inr k, λ k. ground arith)
mode-IsOk false m name h = (λ _. inl refl, λ _. tt)

host_mode-IsOk : (c : CreateParams) → (((c.host != "") ≡ false) ⊎ IsOk (host_mode c)) ↔ HostValid c
unfolding host_mode
host_mode-IsOk c = (
  λ h. ground (arith, texts.0, texts.1, texts.2, texts.3, texts.4),
  λ h. ground (arith, texts.0, texts.1, texts.2, texts.3, texts.4),
)
  where
    texts :
        (((c.host == "") ≡ true) ↔ (c.host ≡ ""))
        × (((c.host == "new") ≡ true) ↔ (c.host ≡ "new"))
        × (((c.host == "inherit") ≡ true) ↔ (c.host ≡ "inherit"))
        × (((c.hostname == "") ≡ true) ↔ (c.hostname ≡ ""))
        × (((c.domainname == "") ≡ true) ↔ (c.domainname ≡ ""))
    texts = (eq_iff _ _, eq_iff _ _, eq_iff _ _, eq_iff _ _, eq_iff _ _)

vnet_mode-IsOk : (v : String) → (((v != "") ≡ false) ⊎ IsOk (vnet_mode v)) ↔ VnetValid v
unfolding vnet_mode
vnet_mode-IsOk v = (
  λ h. ground (arith, eq_iff v "", eq_iff v "new", eq_iff v "inherit"),
  λ h. ground (arith, eq_iff v "", eq_iff v "new", eq_iff v "inherit"),
)

ip_mode-IsOk :
    (e : ParamError) (v : String) → (((v != "") ≡ false) ⊎ IsOk (ip_mode e v)) ↔ IpValid v
unfolding ip_mode
ip_mode-IsOk e v = (
  λ h. ground (arith, eq_iff v "", eq_iff v "disable", eq_iff v "new", eq_iff v "inherit"),
  λ h. ground (arith, eq_iff v "", eq_iff v "disable", eq_iff v "new", eq_iff v "inherit"),
)

iff_trans : {A B C : Type 0} → A ↔ B → B ↔ C → A ↔ C
iff_trans f g = (λ a. g.0 (f.0 a), λ c. f.1 (g.1 c))

pub host_block-IsOk : (c : CreateParams) → IsOk (host_block c) ↔ HostValid c
unfolding host_block has_nul bytes
host_block-IsOk c =
    iff_trans (mode-IsOk (c.host != "") (host_mode c) "host" refl) (host_mode-IsOk c)

pub vnet_block-IsOk : (c : CreateParams) → IsOk (vnet_block c) ↔ VnetValid c.vnet
unfolding vnet_block has_nul bytes
vnet_block-IsOk c =
    iff_trans (mode-IsOk (c.vnet != "") (vnet_mode c.vnet) "vnet" refl) (vnet_mode-IsOk c.vnet)

pub ip4_block-IsOk : (c : CreateParams) → IsOk (ip4_block c) ↔ IpValid c.ip4
unfolding ip4_block has_nul bytes
ip4_block-IsOk c =
    iff_trans (mode-IsOk (c.ip4 != "") (ip_mode unknown_ip4 c.ip4) "ip4" refl)
      (ip_mode-IsOk unknown_ip4 c.ip4)

pub ip6_block-IsOk : (c : CreateParams) → IsOk (ip6_block c) ↔ IpValid c.ip6
unfolding ip6_block has_nul bytes
ip6_block-IsOk c =
    iff_trans (mode-IsOk (c.ip6 != "") (ip_mode unknown_ip6 c.ip6) "ip6" refl)
      (ip_mode-IsOk unknown_ip6 c.ip6)

statfs-NoNul : NoNul "enforce_statfs"
unfolding has_nul bytes
statfs-NoNul = refl

pub statfs_block-IsOk :
    (c : CreateParams) → IsOk (enforce_statfs_block c) ↔ StatfsValid c.enforce_statfs
unfolding enforce_statfs_block
statfs_block-IsOk c = go c.enforce_statfs
  where
    go :
        (o : Option ℤ)
        → IsOk (enforce_statfs_block (record c { enforce_statfs = o })) ↔ StatfsValid o
    go none = (λ h. tt, λ h. tt)
    go (some (negsuc n)) = (λ h. h, λ h. h)
    go (some (pos n)) =
        (λ h. ground arith, λ h. ground (arith, int32_iovec-IsOk "enforce_statfs" n statfs-NoNul))

-- ===== src/Jail/Params/Settings/Blocks.antt =====
-- jail/params.go: what the blocks of iovec but those of addresses set.
use runj.Prelude.{
  ◌≢◌, eq_iff, ℕ, ◌≡◌, refl, String, Bool, true, false, Option, none, some, [], ◌∷◌, arith, Result,
  ok, err, ◌>>=◌, ◌!=◌, if◌then◌else◌,
}
use runj.Text.Decimal.{ℤ, pos}
use runj.Jail.Iovec.{unknown_ip4, unknown_ip6, ParamError, string_iovec, int32_iovec, nil_iovec}
use runj.Jail.Params.{
  negsuc, enforce_statfs_block, ip6_block, host_block, vnet_block, ip4_block, CreateParams,
  optional_string, host_mode, vnet_mode, ip_mode,
}
use runj.Jail.Params.Settings.{int_value, c_string, EncodesOk, when, mode_number, statfs_settings}

pub string_iovec-Encodes :
    (name value : String) → EncodesOk ((name, c_string value) ∷ []) (string_iovec name value)
unfolding string_iovec
string_iovec-Encodes name value = ground arith

pub int32_iovec-Encodes :
    (name : String) (n : ℕ) → EncodesOk ((name, int_value n) ∷ []) (int32_iovec name n)
unfolding int32_iovec
int32_iovec-Encodes name n = ground arith

pub nil_iovec-Encodes : (name : String) → EncodesOk ((name, none) ∷ []) (nil_iovec name)
unfolding nil_iovec
nil_iovec-Encodes name = ground arith

pub optional_string-Encodes :
    (name value : String)
    → EncodesOk (when (value != "") name (c_string value)) (optional_string name value)
unfolding optional_string
optional_string-Encodes name value = go (value != "")
  where
    go :
        (b : Bool)
        → EncodesOk (when b name (c_string value)) (if b then string_iovec name value else ok [])
    go true = string_iovec-Encodes name value
    go false = tt

mode-Encodes :
    (set : Bool) (m : Result ParamError ℕ) (name : String) (n : ℕ)
    → ((k : ℕ) → m ≡ ok k → k ≡ n)
    → EncodesOk (when set name (int_value n)) (if set then m >>= int32_iovec name else ok [])
mode-Encodes true (ok k) name n h = rw (← h k refl) (int32_iovec-Encodes name k)
mode-Encodes true (err e) name n h = tt
mode-Encodes false m name n h = tt

host_mode-number : (c : CreateParams) (k : ℕ) → host_mode c ≡ ok k → k ≡ mode_number c.host
unfolding host_mode
host_mode-number c k h = ground arith

vnet_mode-number : (v : String) (k : ℕ) → vnet_mode v ≡ ok k → k ≡ mode_number v
unfolding vnet_mode
vnet_mode-number v k h = ground arith

disable-ne-new : ◌≢◌ {A = String} "disable" "new"
disable-ne-new = ground (arith, eq_iff "disable" "new")

disable-ne-inherit : ◌≢◌ {A = String} "disable" "inherit"
disable-ne-inherit = ground (arith, eq_iff "disable" "inherit")

ip_mode-number : (e : ParamError) (v : String) (k : ℕ) → ip_mode e v ≡ ok k → k ≡ mode_number v
unfolding ip_mode
ip_mode-number e v k h = ground (
  arith,
  disable-ne-new,
  disable-ne-inherit,
  eq_iff v "disable",
  eq_iff v "new",
  eq_iff v "inherit",
)

pub host_block-Encodes :
    (c : CreateParams)
    → EncodesOk (when (c.host != "") "host" (int_value (mode_number c.host))) (host_block c)
unfolding host_block
host_block-Encodes c = mode-Encodes (c.host != "") _ "host" _ (host_mode-number c)

pub vnet_block-Encodes :
    (c : CreateParams)
    → EncodesOk (when (c.vnet != "") "vnet" (int_value (mode_number c.vnet))) (vnet_block c)
unfolding vnet_block
vnet_block-Encodes c = mode-Encodes (c.vnet != "") _ "vnet" _ (vnet_mode-number c.vnet)

pub ip4_block-Encodes :
    (c : CreateParams)
    → EncodesOk (when (c.ip4 != "") "ip4" (int_value (mode_number c.ip4))) (ip4_block c)
unfolding ip4_block
ip4_block-Encodes c = mode-Encodes (c.ip4 != "") _ "ip4" _ (ip_mode-number unknown_ip4 c.ip4)

pub ip6_block-Encodes :
    (c : CreateParams)
    → EncodesOk (when (c.ip6 != "") "ip6" (int_value (mode_number c.ip6))) (ip6_block c)
unfolding ip6_block
ip6_block-Encodes c = mode-Encodes (c.ip6 != "") _ "ip6" _ (ip_mode-number unknown_ip6 c.ip6)

pub statfs_block-Encodes :
    (c : CreateParams) → EncodesOk (statfs_settings c.enforce_statfs) (enforce_statfs_block c)
unfolding enforce_statfs_block
statfs_block-Encodes c = go c.enforce_statfs
  where
    go :
        (o : Option ℤ)
        → EncodesOk (statfs_settings o) (enforce_statfs_block (record c { enforce_statfs = o }))
    go none = tt
    go (some (pos n)) = ground (arith, int32_iovec-Encodes "enforce_statfs" n)
    go (some (negsuc n)) = tt

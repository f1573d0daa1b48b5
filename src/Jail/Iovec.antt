-- ===== src/Jail/Iovec.antt =====
-- jail/syscall.go: the arrays of name and value buffers that jail_set(2) and jail_get(2) read.
-- A pointer is the bytes that it points at, `none` for nil.
pub mod Shape
use runj.Prelude.{
  ◌||◌, ℕ, zero, suc, ◌/◌, ◌%◌, ◌+◌, ◌^◌, String, Bool, true, false, ◌&&◌, not, Option, none, some,
  List, [], ◌∷◌, ◌++◌, Result, ok, err, ◌>>=◌, length, ◌==ℕ◌, if◌then◌else◌,
}
use runj.Text.{bytes, has_nul}

pub data ParamError : Type 0 where
  nul_byte index_out_of_range : ParamError
  hostname_with_inherit domainname_with_inherit : ParamError
  unknown_host unknown_vnet unknown_ip4 unknown_ip6 : ParamError
  unparsed_ip4 unparsed_ip6 not_ip4 not_ip6 mixed_families : ParamError
  bad_enforce_statfs : ParamError

pub record Iovec : Type 0 where
  pub base : Option (List ℕ)
  pub len : ℕ

-- netip.Addr: an IPv4 address by its 32 bits, an IPv6 address by its 128 bits.
pub data Addr : Type 0 where
  v4 v6 : ℕ → Addr

abbrev pub is4 : Addr → Bool
is4 (v4 n) = true
is4 (v6 n) = false

abbrev pub is6 : Addr → Bool
is6 (v4 n) = false
is6 (v6 n) = true

-- ::ffff:0:0/96
abbrev pub is4in6 : Addr → Bool
is4in6 (v4 n) = false
is4in6 (v6 n) = n / 2 ^ 32 ==ℕ 0xffff

-- The `k` low bytes, the highest first.
unfoldable pub be_bytes : ℕ → ℕ → List ℕ
be_bytes zero n = []
be_bytes (suc k) n = be_bytes k (n / 256) ++ (n % 256) ∷ []

-- addr.AsSlice()
abbrev pub as_slice : Addr → List ℕ
as_slice (v4 n) = be_bytes 4 n
as_slice (v6 n) = be_bytes 16 n

-- syscall.ByteSliceFromString, and the bytes that syscall.BytePtrFromString points at
unfoldable pub byte_slice_from_string : String → Result ParamError (List ℕ)
byte_slice_from_string s = let b = bytes s in if has_nul b then err nul_byte else ok (b ++ 0 ∷ [])

unfoldable pub make_iovec : List ℕ → Option (List ℕ) → ℕ → List Iovec
make_iovec name value size =
    record { base = some name; len = length name } ∷ record { base = value; len = size } ∷ []

unfoldable pub string_iovec : String → String → Result ParamError (List Iovec)
unfolding byte_slice_from_string make_iovec
string_iovec name value = do
  n ← byte_slice_from_string name
  v ← byte_slice_from_string value
  ok (make_iovec n (some v) (length (bytes value) + 1))

-- The four bytes of an int32 that is not negative, in the order of FreeBSD's amd64 and arm64.
unfoldable pub le_bytes32 : ℕ → List ℕ
le_bytes32 n = (n % 256) ∷ (n / 256 % 256) ∷ (n / 65536 % 256) ∷ (n / 16777216 % 256) ∷ []

unfoldable pub int32_iovec : String → ℕ → Result ParamError (List Iovec)
unfolding byte_slice_from_string make_iovec le_bytes32
int32_iovec name value = do
  n ← byte_slice_from_string name
  ok (make_iovec n (some (le_bytes32 value)) 4)

-- The loop of netIPIovec after the first address, whose family is `six`.
append_addrs : Bool → List Addr → List ℕ → Result ParamError (List ℕ)
append_addrs six [] out = ok out
append_addrs six (a ∷ more) out =
    let rest = append_addrs six more (out ++ as_slice a) in
    if six && is4 a || not six && is6 a then err mixed_families else rest

addr_bytes : List Addr → Result ParamError (List ℕ)
unfolding append_addrs
addr_bytes [] = ok []
addr_bytes (a ∷ more) = append_addrs (is6 a) more (as_slice a)

-- `&bytes[0]` panics if there are no bytes.
first_of_bytes : List ℕ → Result ParamError (List ℕ)
first_of_bytes [] = err index_out_of_range
first_of_bytes (b ∷ bs) = ok (b ∷ bs)

unfoldable pub net_ip_iovec : String → List Addr → Result ParamError (List Iovec)
unfolding byte_slice_from_string make_iovec addr_bytes first_of_bytes
net_ip_iovec name value = do
  n ← byte_slice_from_string name
  b ← addr_bytes value
  p ← first_of_bytes b
  ok (make_iovec n (some p) (length b))

unfoldable pub nil_iovec : String → Result ParamError (List Iovec)
unfolding byte_slice_from_string make_iovec
nil_iovec name = do n ← byte_slice_from_string name; ok (make_iovec n none 0)

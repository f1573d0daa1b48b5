-- ===== src/Jail/Iovec/Shape.antt =====
-- jail/syscall.go: the buffers come in pairs of a name and a value, each with its own length.
use runj.Prelude.{
  sym, subst, IsOk, All, bind-eq-ok, append_assoc, append-nil, Result-cases, ℕ, ◌<◌, String, ◌≡◌,
  ◌≢◌, Bool, true, false, none, some, List, [], ◌∷◌, ◌++◌, arith, Result, ok, err, ◌>>=◌, length,
  length-append, inl, inr,
}
use runj.Text.{bytes}
use runj.Jail.Iovec.{
  has_nul, byte_slice_from_string, make_iovec, first_of_bytes, ParamError, index_out_of_range,
  Iovec, Addr, v4, v6, is6, as_slice, be_bytes, append_addrs, addr_bytes, string_iovec, int32_iovec,
  net_ip_iovec, nil_iovec,
}

abbrev pub Block : Type 0
Block = Result ParamError (List Iovec)

-- The length that is passed is the length of the buffer; a nil buffer has length 0.
abbrev pub Fits : Iovec → Type 0
Fits v = elim v.base [ none ↦ v.len ≡ 0 | some b ↦ v.len ≡ length b ]

abbrev pub Pairs : List Iovec → Type 0
Pairs [] = Unit
Pairs (n ∷ []) = ⊥
Pairs (n ∷ v ∷ rest) = Fits n × Fits v × Pairs rest

abbrev pub WellFormed : Block → Type 0
WellFormed (ok v) = Pairs v
WellFormed (err e) = e ≢ index_out_of_range

pub Pairs-append : (xs ys : List Iovec) → Pairs xs → Pairs ys → Pairs (xs ++ ys)
Pairs-append [] ys hx hy = hy
Pairs-append (n ∷ []) ys hx hy = elim hx [ ]
Pairs-append (n ∷ v ∷ xs) ys hx hy = (hx.0, hx.1, Pairs-append xs ys hx.2 hy)

pub WellFormed-bind :
    (m : Block) (f : List Iovec → Block)
    → WellFormed m
    → ((v : List Iovec) → Pairs v → WellFormed (f v))
    → WellFormed (m >>= f)
WellFormed-bind (ok v) f hm hf = hf v hm
WellFormed-bind (err e) f hm hf = hm

pub string_iovec-WellFormed : (name value : String) → WellFormed (string_iovec name value)
unfolding string_iovec
string_iovec-WellFormed name value = ground (arith, length-append {0} (bytes value) (0 ∷ []))

pub int32_iovec-WellFormed : (name : String) (n : ℕ) → WellFormed (int32_iovec name n)
unfolding int32_iovec
int32_iovec-WellFormed name n = ground arith

pub nil_iovec-WellFormed : (name : String) → WellFormed (nil_iovec name)
unfolding nil_iovec
nil_iovec-WellFormed name = ground arith

append_addrs-ne-nil :
    (six : Bool) (l : List Addr) (out b : List ℕ)
    → 0 < length out
    → append_addrs six l out ≡ ok b
    → 0 < length b
unfolding append_addrs
append_addrs-ne-nil six [] out b h e = ground arith
append_addrs-ne-nil six (a ∷ l) out b h e =
    ground
      (arith, append_addrs-ne-nil six l (out ++ as_slice a) b, length-append {0} out (as_slice a))

append_addrs-no_panic :
    (six : Bool) (l : List Addr) (out : List ℕ) → append_addrs six l out ≢ err index_out_of_range
unfolding append_addrs
append_addrs-no_panic six [] out e = cc
append_addrs-no_panic six (a ∷ l) out e =
    ground (arith, append_addrs-no_panic six l (out ++ as_slice a))

-- The addresses of one family after another have bytes, and are all of that family or refused.
addr_bytes-ne-nil : (l : List Addr) (b : List ℕ) → 0 < length l → addr_bytes l ≡ ok b → 0 < length b
unfolding addr_bytes be_bytes
addr_bytes-ne-nil [] b h e = elim h [ ]
addr_bytes-ne-nil (v4 n ∷ l) b h e = append_addrs-ne-nil false l (as_slice (v4 n)) b (omega arith) e
addr_bytes-ne-nil (v6 n ∷ l) b h e = append_addrs-ne-nil true l (as_slice (v6 n)) b (omega arith) e

addr_bytes-no_panic : (l : List Addr) → addr_bytes l ≢ err index_out_of_range
unfolding addr_bytes
addr_bytes-no_panic [] e = cc
addr_bytes-no_panic (a ∷ l) e = append_addrs-no_panic (is6 a) l (as_slice a) e

pub net_ip_iovec-WellFormed :
    (name : String) (l : List Addr) → 0 < length l → WellFormed (net_ip_iovec name l)
unfolding net_ip_iovec
net_ip_iovec-WellFormed name l h = elim (Result-cases (addr_bytes l)) [
  | inl (b, e) ↦ rw (e, net_ip_iovec) (ground (arith, addr_bytes-ne-nil l b h e))
  | inr (x, e) ↦ rw (e, net_ip_iovec) (ground (arith, addr_bytes-no_panic l))
]

-- The bytes of a list of addresses.
abbrev pub all_bytes : List Addr → List ℕ
all_bytes [] = []
all_bytes (a ∷ l) = as_slice a ++ all_bytes l

append_addrs-all_bytes :
    (six : Bool) (l : List Addr) (out b : List ℕ)
    → append_addrs six l out ≡ ok b
    → b ≡ out ++ all_bytes l
unfolding append_addrs
append_addrs-all_bytes six [] out b e = rw append-nil (ground arith)
append_addrs-all_bytes six (a ∷ l) out b e =
    rw (← append_assoc) (append_addrs-all_bytes six l (out ++ as_slice a) b (ground arith))

-- The value buffer of a list of addresses is their bytes, one after another.
addr_bytes-all_bytes : (l : List Addr) (b : List ℕ) → addr_bytes l ≡ ok b → b ≡ all_bytes l
unfolding addr_bytes
addr_bytes-all_bytes [] b e = ground arith
addr_bytes-all_bytes (a ∷ l) b e = append_addrs-all_bytes (is6 a) l (as_slice a) b e

first_of_bytes-eq : (b p : List ℕ) → first_of_bytes b ≡ ok p → p ≡ b
unfolding first_of_bytes
first_of_bytes-eq [] p e = cc
first_of_bytes-eq (x ∷ b) p e = ground arith

pub net_ip_iovec-eq :
    (name : String) (l : List Addr) (v : List Iovec)
    → net_ip_iovec name l ≡ ok v
    → v ≡ make_iovec (bytes name ++ 0 ∷ []) (some (all_bytes l)) (length (all_bytes l))
unfolding net_ip_iovec
net_ip_iovec-eq name l v h =
    let (n, hn, h1) = bind-eq-ok (byte_slice_from_string name) _ h in
    let (b, hb, h2) = bind-eq-ok (addr_bytes l) _ h1 in
    let (p, hp, h3) = bind-eq-ok (first_of_bytes b) _ h2 in
    ground (arith, addr_bytes-all_bytes l b hb, first_of_bytes-eq b p hp)

append_addrs-IsOk :
    (six : Bool) (l : List Addr) (out : List ℕ)
    → All (λ a. is6 a ≡ six) l
    → IsOk (append_addrs six l out)
unfolding append_addrs
append_addrs-IsOk six [] out h = tt
append_addrs-IsOk six (v4 n ∷ l) out h =
    ground (arith, append_addrs-IsOk six l (out ++ as_slice (v4 n)) h.1)
append_addrs-IsOk six (v6 n ∷ l) out h =
    ground (arith, append_addrs-IsOk six l (out ++ as_slice (v6 n)) h.1)

-- Addresses of one family, at least one, are accepted.
pub net_ip_iovec-IsOk :
    (name : String) (six : Bool) (l : List Addr)
    → has_nul (bytes name) ≡ false
    → 0 < length l
    → All (λ a. is6 a ≡ six) l
    → IsOk (net_ip_iovec name l)
unfolding net_ip_iovec
net_ip_iovec-IsOk name six [] hn hl h = elim hl [ ]
net_ip_iovec-IsOk name six (a ∷ l) hn hl h = elim (Result-cases (addr_bytes (a ∷ l))) [
  | inl (b, e) ↦ ground (arith, e, addr_bytes-ne-nil (a ∷ l) b hl e)
  | inr (x, e) ↦ ground (
    arith,
    e,
    h.0,
    append_addrs-IsOk (is6 a) l (as_slice a),
    subst (λ f. All (λ a. is6 a ≡ f) l) (sym h.0) h.1,
  )
]

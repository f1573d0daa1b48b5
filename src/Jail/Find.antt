-- ===== src/Jail/Find.antt =====
-- jail/syscall.go: the search for a jail by its name or its id, with which jail.FromName finds the
-- jail of a container.
use runj.Prelude.{
  inr, inl, Bool-cases, ◌≡◌, refl, ℕ, ◌-◌, ◌%◌, ◌^◌, ◌<◌, String, false, none, some, List, [], ◌∷◌,
  ◌++◌, Result, ok, err, ◌>>=◌, ◌==ℕ◌, ◌==◌, ltb, not, if◌then◌else◌, arith, append-nil,
}
use runj.Text.Decimal.{ℤ, pos, negsuc, atoi, itoa, atoi-itoa}
use runj.Text.{bytes, has_nul}
use runj.Jail.Iovec.{
  ParamError, Iovec, string_iovec, int32_iovec, make_iovec, byte_slice_from_string, le_bytes32,
}

-- The bits of int32(z), a number below 2 ^ 32; `negsuc n` is -(n + 1).
unfoldable pub int32_bits : ℤ → ℕ
int32_bits (pos n) = n % 4294967296
int32_bits (negsuc n) = 4294967295 - n % 4294967296

-- findParams, with the jid by its bits
pub record FindParams : Type 0 where
  pub jid : ℕ
  pub name : String

unfoldable pub find_iovec : FindParams → Result ParamError (List Iovec)
find_iovec f = do
  jid ← if not (f.jid ==ℕ 0) then int32_iovec "jid" f.jid else ok []
  name ← if not (f.name == "") then string_iovec "name" f.name else ok []
  ok (jid ++ name)

-- What find asks: nothing, for the jail of the host, or the kernel, with jail_get(2).
pub data Query : Type 0 where
  host_jail : Query
  ask : List Iovec → Query

pub data FindError : Type 0 where
  invalid_jid : FindError
  bad_param : ParamError → FindError

asked : Result ParamError (List Iovec) → Result FindError Query
asked (ok iovecs) = ok (ask iovecs)
asked (err e) = err (bad_param e)

-- A jid in the range of int.
find_jid : ℤ → Result FindError Query
unfolding asked find_iovec int32_bits
find_jid (pos n) =
    if n ==ℕ 0
    then ok host_jail
    else if ltb 2147483647 n
    then err invalid_jid
    else asked (find_iovec (record { jid = int32_bits (pos n); name = "" }))
find_jid (negsuc n) = asked (find_iovec (record { jid = int32_bits (negsuc n); name = "" }))

-- find, up to the call of jail_get
unfoldable pub find : String → Result FindError Query
unfolding find_jid
find identifier = elim (atoi identifier) [
  | some jid ↦ find_jid jid
  | none ↦ asked (find_iovec (record { jid = 0; name = identifier }))
]

jid_key : byte_slice_from_string "jid" ≡ ok (106 ∷ 105 ∷ 100 ∷ 0 ∷ [])
unfolding byte_slice_from_string has_nul bytes
jid_key = refl

jid_iovec :
    (n : ℕ)
    → (n ==ℕ 0) ≡ false
    → find_iovec (record { jid = n; name = "" })
      ≡ ok (make_iovec (106 ∷ 105 ∷ 100 ∷ 0 ∷ []) (some (le_bytes32 n)) 4)
unfolding find_iovec int32_iovec
jid_iovec n h = rw (h, jid_key, append-nil) refl

find_jid_small :
    (n : ℕ)
    → (n ==ℕ 0) ≡ false
    → ltb 2147483647 n ≡ false
    → asked (find_iovec (record { jid = int32_bits (pos n); name = "" }))
      ≡ ok (ask (make_iovec (106 ∷ 105 ∷ 100 ∷ 0 ∷ []) (some (le_bytes32 n)) 4))
unfolding int32_bits asked
find_jid_small n h l =
    let small : n % 4294967296 ≡ n = ground arith in rw (small, jid_iovec n h) refl

-- A container whose id is a number below 2 ^ 63 in decimal is not looked up by its name: 0 is the
-- jail of the host, without a question to the kernel, and n up to 2147483647 asks for the jail with
-- the id n alone, whatever its name; a larger one below 2 ^ 63 is refused.
pub find_number_lem :
    (n : ℕ)
    → n < 2 ^ 63
    → find (itoa n) ≡ (
        if n ==ℕ 0
        then ok host_jail
        else if ltb 2147483647 n
        then err invalid_jid
        else ok (ask (make_iovec (106 ∷ 105 ∷ 100 ∷ 0 ∷ []) (some (le_bytes32 n)) 4)))
unfolding find find_jid
find_number_lem n h =
    rw (find, atoi-itoa n h)
      (elim (Bool-cases (n ==ℕ 0)) [
        | inl root ↦ rw root refl
        | inr other ↦ elim (Bool-cases (ltb 2147483647 n)) [
          | inl large ↦ rw (other, large) refl
          | inr small ↦ rw (other, small) (find_jid_small n other small)
        ]
      ])

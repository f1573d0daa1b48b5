-- ===== src/Text/Decimal.antt =====
-- strconv.Itoa and strconv.FormatUint(_, 10), and strconv.Atoi, which reads them back.
use Prim.Native.Char.{code, Char}
use runj.Prelude.{
  ℕ, zero, suc, ◌+◌, ◌*◌, ◌-◌, ◌/◌, ◌%◌, ◌^◌, ◌<◌, String, ◌≡◌, refl, Option, none, some, arith,
  ◌∙◌, inl, inr, Bool-cases, ltb, leb, ◌==ℕ◌, ◌&&◌, if◌then◌else◌,
}

-- A Go `int`: `negsuc n` is -(n + 1).
pub data ℤ : Type 0 where
  pos : ℕ → ℤ
  negsuc : ℕ → ℤ

digit_char : ℕ → Char
digit_char zero = "0"
digit_char (suc zero) = "1"
digit_char (suc (suc zero)) = "2"
digit_char (suc (suc (suc zero))) = "3"
digit_char (suc (suc (suc (suc zero)))) = "4"
digit_char (suc (suc (suc (suc (suc zero))))) = "5"
digit_char (suc (suc (suc (suc (suc (suc zero)))))) = "6"
digit_char (suc (suc (suc (suc (suc (suc (suc zero))))))) = "7"
digit_char (suc (suc (suc (suc (suc (suc (suc (suc zero)))))))) = "8"
digit_char _ = "9"

code-digit_char : (d : ℕ) → d < 10 → code (digit_char d) ≡ 48 + d
unfolding digit_char
code-digit_char zero h = refl
code-digit_char (suc zero) h = refl
code-digit_char (suc (suc zero)) h = refl
code-digit_char (suc (suc (suc zero))) h = refl
code-digit_char (suc (suc (suc (suc zero)))) h = refl
code-digit_char (suc (suc (suc (suc (suc zero))))) h = refl
code-digit_char (suc (suc (suc (suc (suc (suc zero)))))) h = refl
code-digit_char (suc (suc (suc (suc (suc (suc (suc zero))))))) h = refl
code-digit_char (suc (suc (suc (suc (suc (suc (suc (suc zero)))))))) h = refl
code-digit_char (suc (suc (suc (suc (suc (suc (suc (suc (suc zero))))))))) h = refl
code-digit_char (suc (suc (suc (suc (suc (suc (suc (suc (suc (suc d)))))))))) h =
    absurd (omega arith)

-- The digits of `n` in front of `acc`; `n + 1` is fuel enough, since a division lowers `n`.
format : ℕ → ℕ → String → String
format zero n acc = acc
format (suc f) n acc =
    let rest = format f (n / 10) (String.◌∷◌ (digit_char (n % 10)) acc) in
    if ltb n 10 then String.◌∷◌ (digit_char n) acc else rest

unfoldable pub itoa : ℕ → String
unfolding format digit_char
itoa n = format (suc n) n String.[]

-- The value of a run of digits, read after the value `n`.
parse_digits : ℕ → String → Option ℕ
parse_digits n String.[] = some n
parse_digits n (String.◌∷◌ c s) =
    let d = code c in if leb 48 d && leb d 57 then parse_digits (n * 10 + (d - 48)) s else none

abbrev positive : Option ℕ → Option ℤ
positive none = none
positive (some n) = if ltb n (2 ^ 63) then some (pos n) else none

abbrev negative : Option ℕ → Option ℤ
negative none = none
negative (some zero) = some (pos 0)
negative (some (suc n)) = if ltb n (2 ^ 63) then some (negsuc n) else none

-- At least one digit.
unsigned : String → Option ℕ
unfolding parse_digits
unsigned String.[] = none
unsigned (String.◌∷◌ c s) = parse_digits 0 (String.◌∷◌ c s)

-- strconv.Atoi; `none` is a syntax or range error.
unfoldable pub atoi : String → Option ℤ
unfolding unsigned
atoi String.[] = none
atoi (String.◌∷◌ c s) =
    if code c ==ℕ 43
    then positive (unsigned s)
    else if code c ==ℕ 45
    then negative (unsigned s)
    else positive (unsigned (String.◌∷◌ c s))

parse_digits-digit :
    (n d m : ℕ) (s : String)
    → d < 10
    → n * 10 + d ≡ m
    → parse_digits n (String.◌∷◌ (digit_char d) s) ≡ parse_digits m s
unfolding parse_digits
parse_digits-digit n d m s h e = ground (arith, code-digit_char d h)

parse_digits-format :
    (f n : ℕ) (acc : String) → n < f → parse_digits 0 (format f n acc) ≡ parse_digits n acc
unfolding format
parse_digits-format zero n acc h = elim h [ ]
parse_digits-format (suc f) n acc h = elim (Bool-cases (ltb n 10)) [
  | inl small ↦ rw small (parse_digits-digit 0 n n acc (ground arith) (omega arith))
  | inr big ↦ rw big (
      parse_digits-format f (n / 10) _ (ground arith)
      ∙ parse_digits-digit (n / 10) (n % 10) n acc (omega arith) (omega arith))
]

format-cons :
    (f n : ℕ) (acc : String)
    → n < f
    → (d : ℕ) × (r : String) × (d < 10) × (format f n acc ≡ String.◌∷◌ (digit_char d) r)
unfolding format
format-cons zero n acc h = elim h [ ]
format-cons (suc f) n acc h = elim (Bool-cases (ltb n 10)) [
  | inl small ↦ (n, acc, ground arith, rw small)
  | inr big ↦ rw big (format-cons f (n / 10) _ (ground arith))
]

itoa-format : (n : ℕ) → itoa n ≡ format (suc n) n String.[]
unfolding itoa
itoa-format n = refl

-- A text that begins with a digit has no sign.
atoi-digit :
    (d : ℕ) (s : String)
    → d < 10
    → atoi (String.◌∷◌ (digit_char d) s) ≡ positive (parse_digits 0 (String.◌∷◌ (digit_char d) s))
unfolding atoi
atoi-digit d s h = ground (arith, code-digit_char d h)

-- Reading back what was printed gives the number.
pub atoi-itoa : (n : ℕ) → n < 2 ^ 63 → atoi (itoa n) ≡ some (pos n)
atoi-itoa n h =
    let (d, r, small, e) = format-cons (suc n) n String.[] (omega arith) in
    rw (itoa-format, e, atoi-digit, small, ← e)
      (rw (parse_digits-format (suc n) n String.[] (omega arith))
        (unfold parse_digits in ground arith))

itoa_test : itoa 4294967295 ≡ "4294967295"
unfolding itoa
itoa_test = refl

atoi_test : atoi "-15" ≡ some (negsuc 14)
unfolding atoi
atoi_test = refl

-- ===== src/Text.antt =====
-- Go strings: the bytes of a text, and texts with a NUL byte (syscall.ByteSliceFromString).
pub mod Decimal
use Prim.Native.Char.{code}
use runj.Prelude.{
  ℕ, ◌+◌, ◌/◌, ◌%◌, String, ◌≡◌, refl, Bool, true, false, ◌||◌, List, [], ◌∷◌, ◌++◌, ltb, ◌==ℕ◌,
  if◌then◌else◌,
}

-- The UTF-8 bytes of one code point.
utf8_char : ℕ → List ℕ
utf8_char c =
    if ltb c 0x80
    then c ∷ []
    else if ltb c 0x800
    then (0xc0 + c / 0x40) ∷ (0x80 + c % 0x40) ∷ []
    else if ltb c 0x10000
    then (0xe0 + c / 0x1000) ∷ (0x80 + c / 0x40 % 0x40) ∷ (0x80 + c % 0x40) ∷ []
    else (0xf0 + c / 0x40000)
      ∷ (0x80 + c / 0x1000 % 0x40)
      ∷ (0x80 + c / 0x40 % 0x40)
      ∷ (0x80 + c % 0x40)
      ∷ []

-- []byte(s)
unfoldable pub bytes : String → List ℕ
unfolding utf8_char
bytes String.[] = []
bytes (String.◌∷◌ c s) = utf8_char (code c) ++ bytes s

-- strings.IndexByte(s, 0) != -1
unfoldable pub has_nul : List ℕ → Bool
has_nul [] = false
has_nul (b ∷ bs) = b ==ℕ 0 || has_nul bs

bytes_test : bytes "né" ≡ 0x6e ∷ 0xc3 ∷ 0xa9 ∷ []
unfolding bytes
bytes_test = refl

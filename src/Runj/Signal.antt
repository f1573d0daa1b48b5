-- ===== src/Runj/Signal.antt =====
-- parseSignal of cmd/runj/kill.go. strings.ToUpper, whose tables are Unicode's, and unix.SignalNum
-- are parameters.
use Prim.Native.Char.{code}
use runj.Prelude.{
  ap, ℕ, String, Bool, true, false, Option, none, some, if◌then◌else◌, ◌==ℕ◌, ◌&&◌, ◌≡◌, ◌<◌, ◌^◌,
}
use runj.Text.Decimal.{ℤ, pos, atoi, itoa, atoi-itoa}
use runj.FilePath.{◌+++◌}

-- strings.HasPrefix(s, p)
unfoldable pub has_prefix : String → String → Bool
has_prefix s String.[] = true
has_prefix String.[] (String.◌∷◌ d p) = false
has_prefix (String.◌∷◌ c s) (String.◌∷◌ d p) = code c ==ℕ code d && has_prefix s p

module _ (upper : String → String) (signal_num : String → ℕ) where
  -- A signal by its name, with or without `SIG`.
  unfoldable pub by_name : String → Option ℤ
  unfolding has_prefix ◌+++◌
  by_name sig =
      let n = signal_num (if has_prefix sig "SIG" then sig else "SIG" +++ sig) in
      if n ==ℕ 0 then none else some (pos n)

  abbrev or_name : String → Option ℤ → Option ℤ
  or_name raw (some n) = some n
  or_name raw none = by_name (upper raw)

  unfoldable pub parse_signal : String → Option ℤ
  unfolding by_name
  parse_signal raw = or_name raw (atoi raw)

  -- A signal that the shim's Kill passes on in decimal is read back by the kill command as the same
  -- number, where it fits an int.
  pub parse_signal-itoa : (n : ℕ) → n < 2 ^ 63 → parse_signal (itoa n) ≡ some (pos n)
  unfolding parse_signal
  parse_signal-itoa n h = ap (or_name (itoa n)) (atoi-itoa n h)

-- ===== src/Demo/Version.antt =====
-- demo/version.go: FreeBSDVersion, FreeBSDArch and FreeBSDMachine, of the output of the program that
-- each runs: `none` where it fails.
use Prim.Native.Char.{code}
use runj.Prelude.{
  ℕ, String, Bool, true, false, ◌&&◌, ◌||◌, ◌≡◌, refl, Option, none, some, List, [], ◌∷◌, leb,
  ◌==ℕ◌, if◌then◌else◌,
}
use runj.FilePath.{◌+++◌}

-- unicode.IsSpace
is_space : ℕ → Bool
is_space c =
    (leb 9 c && leb c 13)
    || (c ==ℕ 0x20)
    || (c ==ℕ 0x85)
    || (c ==ℕ 0xa0)
    || (c ==ℕ 0x1680)
    || (leb 0x2000 c && leb c 0x200a)
    || (c ==ℕ 0x2028)
    || (c ==ℕ 0x2029)
    || (c ==ℕ 0x202f)
    || (c ==ℕ 0x205f)
    || (c ==ℕ 0x3000)

trim_left : String → String
unfolding is_space
trim_left String.[] = ""
trim_left (String.◌∷◌ c s) =
    let rest = trim_left s in if is_space (code c) then rest else String.◌∷◌ c s

is_no_text : String → Bool
is_no_text String.[] = true
is_no_text (String.◌∷◌ c s) = false

trim_right : String → String
unfolding is_space is_no_text
trim_right String.[] = ""
trim_right (String.◌∷◌ c s) =
    let rest = trim_right s in
    if is_no_text rest && is_space (code c) then "" else String.◌∷◌ c rest

-- strings.TrimSpace
unfoldable pub trim_space : String → String
unfolding trim_left trim_right
trim_space s = trim_right (trim_left s)

push_front : Bool → String → List String → List String
push_front true s parts = "" ∷ parts
push_front false s [] = s ∷ []
push_front false s (e ∷ parts) = (s +++ e) ∷ parts

-- strings.Split(s, "-")
split_dash : String → List String
unfolding push_front ◌+++◌
split_dash String.[] = "" ∷ []
split_dash (String.◌∷◌ c s) = push_front (code c ==ℕ 45) (String.◌∷◌ c String.[]) (split_dash s)

release_of : List String → String
unfolding ◌+++◌
release_of [] = ""
release_of (v ∷ []) = v
release_of (v ∷ branch ∷ rest) = v +++ "-" +++ branch

unfoldable pub freebsd_version : Option String → Option String
unfolding trim_space split_dash release_of
freebsd_version none = none
freebsd_version (some output) = some (release_of (split_dash (trim_space output)))

-- FreeBSDArch and FreeBSDMachine
unfoldable pub uname : Option String → Option String
unfolding trim_space
uname none = none
uname (some output) = some (trim_space output)

freebsd_version_test :
    (freebsd_version (some "14.2-RELEASE-p1\n") ≡ some "14.2-RELEASE")
    × (freebsd_version (some " 15\n") ≡ some "15")
unfolding freebsd_version
freebsd_version_test = (refl, refl)

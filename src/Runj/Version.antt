-- ===== src/Runj/Version.antt =====
-- version.go: render, of the build information of the Go runtime; and the exit code of
-- cmd/runj/main.go.
use runj.Prelude.{
  ℕ, String, Bool, true, false, ◌≡◌, refl, Option, none, some, List, [], ◌∷◌, ◌==◌, ◌!=◌,
  if◌then◌else◌,
}
use runj.FilePath.{◌+++◌}
use runj.Demo.Version.{trim_space}

-- debug.BuildInfo
pub record BuildInfo : Type 0 where
  pub settings : List (String × String)
  pub go_version : String
  pub deps : List (String × String)

-- The last of the settings with the key, or what was there before
last_setting : String → String → List (String × String) → String
last_setting key before [] = before
last_setting key before ((k, v) ∷ settings) =
    last_setting key (if k == key then v else before) settings

-- Whether one of the settings says that the tree was modified
is_modified : Bool → List (String × String) → Bool
is_modified before [] = before
is_modified before ((k, v) ∷ settings) =
    is_modified (if k == "vcs.modified" then (if v == "true" then true else before) else before)
      settings

deps_text : List (String × String) → String
deps_text [] = ""
deps_text ((path, version) ∷ deps) = "\n" +++ path +++ ": " +++ version +++ deps_text deps

revision : String → BuildInfo → String
unfolding last_setting is_modified ◌+++◌
revision override build =
    let found = last_setting "vcs.revision" "" build.settings in
    if override != ""
    then override
    else if is_modified false build.settings
    then found +++ "*"
    else found

unfoldable pub render : String → String → Option BuildInfo → String
unfolding trim_space revision deps_text ◌+++◌
render version rev_override none = "unknown"
render version rev_override (some build) =
    trim_space version
    +++ " ("
    +++ revision (trim_space rev_override) build
    +++ ")\ngo: "
    +++ build.go_version
    +++ deps_text build.deps

render_test :
    render "0.1.0\n" "" (
      some (record {
        settings = ("vcs.revision", "abc") ∷ ("vcs.modified", "true") ∷ [];
        go_version = "go1.24";
        deps = ("golang.org/x/sys", "v0.30.0") ∷ [];
      }))
    ≡ "0.1.0 (abc*)\ngo: go1.24\ngolang.org/x/sys: v0.30.0"
unfolding render
render_test = refl

-- What a command returns: an exec.ExitError has the exit code of a program.
pub data CommandEnd : Type 0 where
  success : CommandEnd
  exit_error : ℕ → CommandEnd
  other_error : CommandEnd

-- main: the exit code
unfoldable pub main_code : CommandEnd → ℕ
main_code success = 0
main_code (exit_error code) = code
main_code other_error = 1

-- ===== src/FilePath.antt =====
-- Go's path/filepath on a system with `/`: Clean, Join and Base, as far as the program uses them.
use Prim.Native.Char.{code}
use runj.Prelude.{
  String, ◌≡◌, refl, Bool, true, false, List, [], ◌∷◌, reverse, ◌==◌, ◌==ℕ◌, if◌then◌else◌,
}

infixr 65 ◌+++◌
unfoldable pub ◌+++◌ : String → String → String
String.[] +++ t = t
(String.◌∷◌ c s) +++ t = String.◌∷◌ c (s +++ t)

-- The text up to the next `/`, in front of the other elements.
push_front : Bool → String → List String → List String
push_front true s elems = String.[] ∷ elems
push_front false s [] = s ∷ []
push_front false s (e ∷ elems) = (s +++ e) ∷ elems

-- strings.Split(s, "/")
unfoldable pub split_slash : String → List String
unfolding push_front ◌+++◌
split_slash String.[] = String.[] ∷ []
split_slash (String.◌∷◌ c s) = push_front (code c ==ℕ 47) (String.◌∷◌ c String.[]) (split_slash s)

-- strings.Join(elems, "/")
unfoldable pub join_slash : List String → String
unfolding ◌+++◌
join_slash [] = ""
join_slash (e ∷ []) = e
join_slash (e ∷ f ∷ rest) = e +++ "/" +++ join_slash (f ∷ rest)

unfoldable pub is_rooted : String → Bool
is_rooted String.[] = false
is_rooted (String.◌∷◌ c s) = code c ==ℕ 47

-- `..` takes back the element before it; at the root it is dropped.
parent : Bool → List String → List String
parent rooted [] = if rooted then [] else ".." ∷ []
parent rooted (e ∷ out) = if e == ".." then ".." ∷ e ∷ out else out

-- The elements that stay, the last one first.
clean_elems : Bool → List String → List String → List String
unfolding parent
clean_elems rooted out [] = out
clean_elems rooted out (e ∷ elems) =
    clean_elems rooted
      (if e == ""
        then out
        else if e == "."
        then out
        else if e == ".."
        then parent rooted out
        else e ∷ out)
      elems

-- filepath.Clean
unfoldable pub clean : String → String
unfolding split_slash join_slash is_rooted clean_elems
clean p =
    let rooted = is_rooted p in
    let elems = join_slash (reverse (clean_elems rooted [] (split_slash p))) in
    if rooted then "/" +++ elems else if elems == "" then "." else elems

-- filepath.Join of two elements
unfoldable pub join : String → String → String
unfolding clean
join a b = if a == "" then (if b == "" then "" else clean b) else clean (a +++ "/" +++ b)

last_elem : String → List String → String
last_elem last [] = last
last_elem last (e ∷ elems) = last_elem (if e == "" then last else e) elems

-- filepath.Base: the last element that is not empty
unfoldable pub base : String → String
unfolding split_slash last_elem is_rooted
base p =
    let last = last_elem "" (split_slash p) in
    if last == "" then (if is_rooted p then "/" else ".") else last

clean_test : clean "/var/lib//runj/./jails/../x/" ≡ "/var/lib/runj/x"
unfolding clean
clean_test = refl

clean_relative_test : clean "../a/../../b" ≡ "../../b"
unfolding clean
clean_relative_test = refl

base_test : base "/etc/runj.ext.json/" ≡ "runj.ext.json"
unfolding base
base_test = refl

-- The elements but the last one, which becomes empty.
up_to_last : List String → List String
up_to_last [] = []
up_to_last (e ∷ []) = "" ∷ []
up_to_last (e ∷ elems) = e ∷ up_to_last elems

-- filepath.Dir
unfoldable pub dir : String → String
unfolding clean split_slash join_slash up_to_last
dir path = clean (join_slash (up_to_last (split_slash path)))

dir_test : (dir "/bundle/root/data" ≡ "/bundle/root") × (dir "/data" ≡ "/") × (dir "data" ≡ ".")
unfolding dir
dir_test = (refl, refl, refl)

-- ===== src/Demo/Packed.antt =====
-- The parts of a success, and what makeTar packs.
use runj.Prelude.{
  Bool, true, false, ◌≡◌, refl, ap, Option, none, some, List, [], ◌∷◌, ◌++◌, Result, ok, err, arith,
  append-nil, append_assoc,
}
use runj.Demo.{
  Bytes, Place, Files, Archive, World, Visit, unreadable, directory, file, Site, Make, Failure,
  answered, fails_unless, continue, ◌>>=◌, ◌>>◌,
}
use runj.Demo.Tar.{make_tar, add_all, add_file}

module _ {ℓ κ} {A : Type ℓ} {B : Type κ} where
  continue-eq-ok :
      (r : Result Failure A) (f : A → Make B) (w w' : World) (b : B)
      → continue r f w ≡ (ok b, w')
      → (a : A) × (r ≡ ok a) × (f a w ≡ (ok b, w'))
  continue-eq-ok (ok a) f w w' b h = (a, refl, h)
  continue-eq-ok (err e) f w w' b h = cc

  -- A success of two steps is a success of the first and then of the second.
  pub bind-eq-ok :
      (m : Make A) (f : A → Make B) (w w' : World) (b : B)
      → (m >>= f) w ≡ (ok b, w')
      → (a : A) × (v : World) × (m w ≡ (ok a, v)) × (f a v ≡ (ok b, w'))
  bind-eq-ok m f w w' b h =
      let (a, e, k) = continue-eq-ok (m w).0 f (m w).1 w' b h in (a, (m w).1, ground (arith, e), k)

module _ {ℓ} {A : Type ℓ} where
  pub check-eq-ok :
      (c : Bool) (k : Make A) (w w' : World) (a : A)
      → (fails_unless c >> k) w ≡ (ok a, w')
      → (c ≡ true) × (k w ≡ (ok a, w'))
  check-eq-ok true k w w' a h = (refl, h)
  check-eq-ok false k w w' a h = cc

  pub answered-eq-ok {κ} :
      {X : Type κ} (o : Option X) (k : X → Make A) (w w' : World) (a : A)
      → (answered o >>= k) w ≡ (ok a, w')
      → (x : X) × (o ≡ some x) × (k x w ≡ (ok a, w'))
  answered-eq-ok none k w w' a h = cc
  answered-eq-ok (some x) k w w' a h = (x, refl, h)

-- The files that Walk reports, and whether it reports no error.
abbrev pub files_of : List Visit → Files
files_of [] = []
files_of (unreadable ∷ vs) = files_of vs
files_of (directory ∷ vs) = files_of vs
files_of (file p b ∷ vs) = (p, b) ∷ files_of vs

abbrev pub is_readable : List Visit → Bool
is_readable [] = true
is_readable (unreadable ∷ vs) = false
is_readable (directory ∷ vs) = is_readable vs
is_readable (file p b ∷ vs) = is_readable vs

module _ (o : Site) where
  add_file_lem :
      (p : Place) (b : Bytes) (w w' : World) (a : Archive)
      → add_file o p b w ≡ (ok tt, w')
      → w.out ≡ some a
      → w' ≡ record w { out = some (record a { entries = a.entries ++ (p, b) ∷ [] }) }
  unfolding add_file
  add_file_lem p b w w' a h e = ground arith

  add_all_lem :
      (vs : List Visit) (w w' : World) (a : Archive)
      → add_all o vs w ≡ (ok tt, w')
      → w.out ≡ some a
      → (is_readable vs ≡ true)
        × (w' ≡ record w { out = some (record a { entries = a.entries ++ files_of vs }) })
  unfolding add_all
  add_all_lem [] w w' a h e = (refl, ground (arith, append-nil a.entries))
  add_all_lem (unreadable ∷ vs) w w' a h e = cc
  add_all_lem (directory ∷ vs) w w' a h e = add_all_lem vs w w' a h e
  add_all_lem (file p b ∷ vs) w w' a h e =
      let (u, v, x, y) = bind-eq-ok (add_file o p b) (λ _. add_all o vs) w w' tt h in
      let v_eq = add_file_lem p b w v a x e in
      let a' : Archive = record a { entries = a.entries ++ (p, b) ∷ [] } in
      let (r, z) = add_all_lem vs v w' a' y (ap (λ (s : World). s.out) v_eq) in
      (r, ground (arith, z, v_eq, append_assoc a.entries ((p, b) ∷ []) (files_of vs)))

  -- makeTar that succeeds has made the output file, and has packed what Walk reports.
  pub make_tar_lem :
      (w w' : World)
      → make_tar o w ≡ (ok tt, w')
      → (w.out ≡ none)
        × (is_readable (o.walk w.image) ≡ true)
        × (w' ≡ record w {
          out = some (record { entries = files_of (o.walk w.image); whole = o.close_tar });
        })
  unfolding make_tar
  make_tar_lem w w' h =
      let empty : Archive = record { entries = []; whole = false } in
      let begun : World = record w { out = some empty } in
      let v = (add_all o (o.walk w.image) begun).1 in
      ground (arith, add_all_lem (o.walk w.image) begun v empty)

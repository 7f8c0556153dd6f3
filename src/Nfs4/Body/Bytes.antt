-- ===== src/Nfs4/Body/Bytes.antt =====
-- src/nfs4/codec.rs: the comparison of byte arrays.
use mathlib.Core.Path.{subst}
use nfs_crust.Prelude.{
  ℕ, ◌≡◌, refl, true, false, List, [], ◌∷◌, arith, ◌==◌, ==_iff, if◌then◌else◌, inl, inr,
  Bool-cases,
}
use nfs_crust.Nfs4.Body.{same_bytes}

pub same_bytes-eq : (xs ys : List ℕ) → same_bytes xs ys ≡ true → xs ≡ ys
unfolding same_bytes
same_bytes-eq [] [] h = refl
same_bytes-eq [] (y ∷ ys) h = absurd (ground arith)
same_bytes-eq (x ∷ xs) [] h = absurd (ground arith)
same_bytes-eq (x ∷ xs) (y ∷ ys) h = elim (Bool-cases (x == y)) [
  | inl t ↦
      let e : x ≡ y = (==_iff x y).0 t in
      let f : xs ≡ ys =
        same_bytes-eq xs ys (subst (λ c. (if c then same_bytes xs ys else false) ≡ true) t h) in
      λ i. e i ∷ f i
  | inr t ↦ absurd (ground arith)
]

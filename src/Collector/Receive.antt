-- ===== src/Collector/Receive.antt =====
-- What recv_exact of the collector takes from the bytes that arrive.
use project_sh_fms.Prelude.{
  ℕ, ◌≡◌, refl, ap, ap₂, true, List, [], ◌∷◌, ◌++◌, some, leb, le→leb, length, length-append, take,
  drop, arith,
}
use project_sh_fms.Collector.{recv_exact}

pub recv_exact-append : (xs ys : List ℕ) → recv_exact (length xs) (xs ++ ys) ≡ some (xs, ys)
recv_exact-append xs ys =
    let e : leb (length xs) (length (xs ++ ys)) ≡ true =
      le→leb _ _ (omega (arith, length-append xs ys)) in
    rw e (ap some (ap₂ (λ a b. (a, b)) (takes xs ys) (drops xs ys)))
  where
    takes : (xs ys : List ℕ) → take (length xs) (xs ++ ys) ≡ xs
    takes [] ys = refl
    takes (x ∷ xs) ys = ap (λ zs. x ∷ zs) (takes xs ys)

    drops : (xs ys : List ℕ) → drop (length xs) (xs ++ ys) ≡ ys
    drops [] ys = refl
    drops (x ∷ xs) ys = drops xs ys

-- ===== src/Historian/Query.antt =====
-- What a query of the historian answers.
use Prim.Native.Nat.{◌≤◌, ◌<◌}
use project_sh_fms.Prelude.{
  ℕ, zero, suc, ◌+◌, ◌-◌, ◌≡◌, inl, inr, refl, ap, ◌∙◌, Bool, true, List, [], ◌∷◌, Option, none,
  some, Text, if◌then◌else◌, leb, le→leb, length, get_or, arith, select, drop, All, Memᴰ, ltb,
  length-select, tally-le, length-drop, Bool-cases,
}
use project_sh_fms.Number.{Number}
use project_sh_fms.Engine.{Sample}
use project_sh_fms.Engine.Store.{lookup}
use project_sh_fms.Engine.Store.Laws.{shrink-drop}
use project_sh_fms.Historian.{
  RingBuffer, is_within, per_tag_capacity, index_of, write, sampled, thin_out, query_found, query,
}
use project_sh_fms.Historian.Index.{IsRounded, index_of-below}
use project_sh_fms.Historian.Refine.{
  range-contents, points_of, newest, Holds, nothing, ring, write-Holds,
}

below : (i n : ℕ) → ltb i n ≡ true → i < n
below i n e = ground arith

module _ (r : Number) (to_int : r.Num → ℕ) where
  pub query_found-Holds :
      (xs : List (ℕ × r.Num)) (o : Option (RingBuffer r)) (from to points : ℕ)
      → Holds r xs o
      → query_found r to_int o from to points
        ≡ thin_out r to_int points (select (is_within r from to) (newest r xs))
  query_found-Holds xs none from to points (nothing e) =
      rw e (rw (le→leb 0 points (omega arith)) refl)
  query_found-Holds xs (some b) from to points (ring _ i c e) = ap (thin_out r to_int points) (
      range-contents r from to b
      ∙ ap (select (is_within r from to)) (e ∙ shrink-drop per_tag_capacity xs))

  -- Whatever batches were written, a query for a tag answers with the points of the interval among
  -- the newest 21600 that were written for it, in the order of writing, thinned out if they are too
  -- many: the ring of arrays behaves as the list of what was written.
  pub query-write :
      (vs : List (Sample r)) (tag : Text) (from to points : ℕ)
      → query r to_int tag from to points (write r vs [])
        ≡ thin_out r to_int points (select (is_within r from to) (newest r (points_of r tag vs)))
  unfolding query lookup
  query-write vs tag from to points =
      query_found-Holds (points_of r tag vs) (lookup tag (write r vs [])) from to points
        (write-Holds r [] vs [] (λ k. nothing refl) tag)

  module _ {κ} (P : ℕ × r.Num → Type κ) where
    get_or-All :
        (xs : List (ℕ × r.Num)) (i : ℕ) (d : ℕ × r.Num)
        → All P xs
        → i < length xs
        → P (get_or xs i d)
    get_or-All [] i d a h = absurd (omega (arith, h))
    get_or-All (x ∷ xs) zero d a h = a.0
    get_or-All (x ∷ xs) (suc i) d a h = get_or-All xs i d a.1 (omega (arith, h))

    sampled-All :
        (raw : List (ℕ × r.Num)) (points i n : ℕ)
        → IsRounded r to_int
        → i + n ≤ points
        → points < length raw
        → length raw ≤ per_tag_capacity
        → All P raw
        → All P (sampled r to_int raw points i n) × (length (sampled r to_int raw points i n) ≡ n)
    unfolding sampled
    sampled-All raw points i zero h a b c p = (tt, refl)
    sampled-All raw points i (suc n) h a b c p =
        let (all, len) = sampled-All raw points (i + 1) n h (omega (arith, a)) b c p in
        (
          (
            get_or-All raw (index_of r to_int i (length raw) points) _ p (
                below _ _ (index_of-below r to_int i (length raw) points h (omega (arith, a)) b c)),
            all,
          ),
          ap suc len,
        )

    thin_out-All :
        (raw : List (ℕ × r.Num)) (points : ℕ)
        → IsRounded r to_int
        → length raw ≤ per_tag_capacity
        → All P raw
        → All P (thin_out r to_int points raw)
          × (length (thin_out r to_int points raw)
              ≡ (if leb (length raw) points then length raw else points))
    thin_out-All raw points h c p = elim (Bool-cases (leb (length raw) points)) [
      | inl e ↦ rw e (p, refl)
      | inr e ↦ rw e (sampled-All raw points 0 points h (omega arith) (ground arith) c p)
    ]

    select-All :
        (q : ℕ × r.Num → Bool) (xs : List (ℕ × r.Num))
        → All P xs
        → All (λ x. P x × (q x ≡ true)) (select q xs)
    select-All q [] a = tt
    select-All q (x ∷ xs) a = elim (Bool-cases (q x)) [
      | inl e ↦ rw e ((a.0, e), select-All q xs a.1)
      | inr e ↦ rw e (select-All q xs a.1)
    ]

    drop-All : (n : ℕ) (xs : List (ℕ × r.Num)) → All P xs → All P (drop n xs)
    drop-All zero xs a = a
    drop-All (suc n) [] a = tt
    drop-All (suc n) (x ∷ xs) a = drop-All n xs a.1

  All-later :
      (x : ℕ × r.Num) (xs ys : List (ℕ × r.Num))
      → All (λ y. Memᴰ y xs) ys
      → All (λ y. Memᴰ y (x ∷ xs)) ys
  All-later x xs [] a = tt
  All-later x xs (y ∷ ys) a = (Memᴰ.tail a.0, All-later x xs ys a.1)

  All-mem : (xs : List (ℕ × r.Num)) → All (λ y. Memᴰ y xs) xs
  All-mem [] = tt
  All-mem (x ∷ xs) = (Memᴰ.head refl, All-later x xs xs (All-mem xs))

  length-newest :
      (q : ℕ × r.Num → Bool) (xs : List (ℕ × r.Num))
      → length (select q (newest r xs)) ≤ per_tag_capacity
  length-newest q xs = omega (
    arith,
    length-select q (newest r xs),
    tally-le q (newest r xs),
    length-drop (length xs - per_tag_capacity) xs,
  )

  -- Whatever batches were written, a query answers with points that were written for its tag and lie
  -- in its interval: as many as there are of them among the newest 21600, or exactly as many as were
  -- asked for, if that is fewer; sampling never reads outside the list, in spite of its rounded
  -- quotient and product.
  pub query_sound :
      (vs : List (Sample r)) (tag : Text) (from to points : ℕ)
      → IsRounded r to_int
      → let answer = query r to_int tag from to points (write r vs []) in
        let all = select (is_within r from to) (newest r (points_of r tag vs)) in
        All (λ p. Memᴰ p (points_of r tag vs) × (is_within r from to p ≡ true)) answer
        × (length answer ≡ (if leb (length all) points then length all else points))
  query_sound vs tag from to points h =
      let xs = points_of r tag vs in
      rw (query-write vs tag from to points) (
        thin_out-All (λ p. Memᴰ p xs × (is_within r from to p ≡ true))
          (select (is_within r from to) (newest r xs)) points h
          (length-newest (is_within r from to) xs)
          (select-All (λ p. Memᴰ p xs) (is_within r from to) (newest r xs)
            (drop-All (λ p. Memᴰ p xs) (length xs - per_tag_capacity) xs (All-mem xs))))

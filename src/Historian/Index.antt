-- ===== src/Historian/Index.antt =====
-- Where a sample's index `(int)(i * step)` of the historian's Query lies.
use Prim.Native.Nat.{◌≤◌, ◌<◌}
use native.Mathlib.Nat.{
  mul-le-mul_right, mul-le-mul_left, mul_comm, mul_assoc, mul_left_comm, mul-add, mul-suc,
}
use project_sh_fms.Prelude.{ℕ, suc, ◌+◌, ◌*◌, ◌≡◌, true, inl, inr, ltb, arith, Bool-cases}
use project_sh_fms.Number.{Number}
use project_sh_fms.Historian.{per_tag_capacity, index_of}

spread : (i u m : ℕ) → m * (i * u + 8192) ≡ i * (u * m) + m * 8192
spread i u m = omega (arith, mul-add m (i * u) 8192, mul_left_comm m i u, mul_comm m u)

spread_right :
    (i n m : ℕ)
    → i * (n * 4503599627370496 + m * 8192) ≡ (i * n) * 4503599627370496 + (i * m) * 8192
spread_right i n m = omega (
  arith,
  mul-add i (n * 4503599627370496) (m * 8192),
  mul_assoc i n 4503599627370496,
  mul_assoc i m 8192,
)

below_count :
    (i n m t u : ℕ)
    → i < m
    → m < n
    → n ≤ 21600
    → u * m ≤ n * 4503599627370496 + m * 8192
    → t * 4503599627370496 ≤ i * u + 8192
    → ltb t n ≡ true
below_count i n m t u a b c d e = elim (Bool-cases (ltb t n)) [
  | inl y ↦ y
  | inr y ↦
      let k : n ≤ t = ground arith in
      let h1 : n * 4503599627370496 ≤ i * u + 8192 = omega (arith, k, e) in
      let h2 : m * (n * 4503599627370496) ≤ m * (i * u + 8192) = mul-le-mul_left m h1 in
      let h3 : i * (u * m) ≤ i * (n * 4503599627370496 + m * 8192) = mul-le-mul_left i d in
      let more : suc i ≤ m = omega (arith, a) in
      let h4 : n * suc i ≤ n * m = mul-le-mul_left n more in
      let few : suc i ≤ 21600 = omega (arith, a, b, c) in
      let h5 : m * suc i ≤ m * 21600 = mul-le-mul_left m few in
      absurd (
        omega (
          arith,
          b,
          h2,
          h3,
          h4,
          h5,
          spread i u m,
          spread_right i n m,
          mul_assoc m n 4503599627370496,
          mul-suc n i,
          mul-suc m i,
          mul_comm n i,
          mul_comm m i,
          mul_comm m n,
        ))
]

module _ (r : Number) (to_int : r.Num → ℕ) where
  open r use {Num, lit, mul, div}

  -- Documented of IEEE doubles and of the cast to int, as multiples of 2^-52: `units` is the least
  -- natural number that is not below 2^52 times the double. Below 2^15 the rounding to the nearest
  -- double is off by 2^-39 at most, which are 2^13 units, and counts are doubles themselves; the cast
  -- drops the fraction.
  pub record IsRounded : Type 0 where
    pub units : Num → ℕ
    pub divided :
        (n m : ℕ)
        → 0 < m
        → m < n
        → n ≤ per_tag_capacity
        → units (div (lit n 0) (lit m 0)) * m ≤ n * 4503599627370496 + m * 8192
    pub multiplied :
        (i : ℕ) (x : Num)
        → i < per_tag_capacity
        → i * units x < 32768 * 4503599627370496
        → units (mul (lit i 0) x) ≤ i * units x + 8192
    pub truncated : (x : Num) → to_int x * 4503599627370496 ≤ units x

  -- The index of each sample is one of the list's.
  pub index_of-below :
      (i n m : ℕ)
      → IsRounded
      → i < m
      → m < n
      → n ≤ per_tag_capacity
      → ltb (index_of r to_int i n m) n ≡ true
  unfolding index_of
  index_of-below i n m h a b c =
      let step : Num = div (lit n 0) (lit m 0) in
      let u : ℕ = h.units step in
      let d = h.divided n m (omega (arith, a)) b c in
      let less : i ≤ m = omega (arith, a) in
      let grown : i * u ≤ m * u = mul-le-mul_right u less in
      let small : i * u < 32768 * 4503599627370496 = omega (arith, d, grown, mul_comm m u, b, c) in
      let p = h.multiplied i step (omega (arith, a, b, c)) small in
      let t = h.truncated (mul (lit i 0) step) in
      below_count i n m (to_int (mul (lit i 0) step)) u a b c d (omega (arith, p, t))

-- ===== src/Mock/Random/Range.antt =====
-- The last value of the range is never drawn, so that `rnd()` stays below 1.
use Prim.Native.Nat.{◌≤◌, ◌<◌}
use native.Mathlib.Decide.{dec_lt}
use project_sh_fms.Prelude.{
  ℕ, zero, suc, ◌+◌, ◌*◌, ◌/◌, ◌%◌, ◌^◌, ◌-◌, ◌≡◌, ◌≢◌, ltb, arith, refl, inl, inr, ap, ◌∙◌,
  Bool-cases,
}
use project_sh_fms.Mock.Random.{ulp_from, round_to, double, next_seed}
use project_sh_fms.Mock.Random.Rounding.{double_small, next_seed_exact}

even-mul : (q v : ℕ) → (q * (v + v)) % 2 ≡ 0
even-mul q v = omega arith

ulp_from-even : (f v n : ℕ) → (w : ℕ) × (ulp_from f (v + v) n ≡ w + w)
unfolding ulp_from
ulp_from-even zero v n = (v, refl)
ulp_from-even (suc f) v n = elim (Bool-cases (ltb n (2 ^ 53 * (v + v)))) [
  | inl e ↦ (v, rw e)
  | inr e ↦
      let (w, q) = ulp_from-even f (v + v) n in
      (w, rw e (ap (λ u. ulp_from f u n) (omega arith) ∙ q))
]

round_to-even : (v n : ℕ) → round_to (v + v) n % 2 ≡ 0
unfolding round_to
round_to-even v n = ground (arith, even-mul (n / (v + v)) v, even-mul (n / (v + v) + 1) v)

ulp-even : (n : ℕ) → 2 ^ 53 ≤ n → (w : ℕ) × (ulp_from 11 1 n ≡ w + w)
unfolding ulp_from
ulp-even n h = elim (Bool-cases (ltb n (2 ^ 53 * 1))) [
  | inl e ↦ absurd (ground arith)
  | inr e ↦ let (w, q) = ulp_from-even 10 1 n in (w, rw e q)
]

double-even : (n : ℕ) → 2 ^ 53 ≤ n → double n % 2 ≡ 0
unfolding double
double-even n h = let (w, q) = ulp-even n h in rw q (round_to-even w n)

double-ge : (n : ℕ) → 2 ^ 53 ≤ n → n < 2 ^ 62 → 2 ^ 53 ≤ double n
unfolding double ulp_from round_to
double-ge n h k = ground arith

odd_exact : (s k : ℕ) → s * 1103515245 + 12345 < 2 ^ 53 → s * 1103515245 + 12346 ≢ k * 2 ^ 31
odd_exact s k h e = omega (arith, ap (λ (t : ℕ). t * 1857678181) e)

-- Past 2^53 the sum is still past it after the product is rounded.
sum-ge :
    (s : ℕ)
    → s < 2 ^ 31
    → 2 ^ 53 ≤ s * 1103515245 + 12345
    → 2 ^ 53 ≤ double (s * 1103515245) + 12345
sum-ge s h k = elim (dec_lt (s * 1103515245) (2 ^ 53)) [
  | yes p ↦ rw (double_small (s * 1103515245) p) k
  | no p ↦ omega (arith, double-ge (s * 1103515245) (omega arith) (omega arith))
]

next_seed-even : (s : ℕ) → s < 2 ^ 31 → 2 ^ 53 ≤ s * 1103515245 + 12345 → next_seed s % 2 ≡ 0
unfolding next_seed
next_seed-even s h k = omega (arith, double-even (double (s * 1103515245) + 12345) (sum-ge s h k))

-- A seed below 2^31 is never followed by 2^31 - 1, so the quotient that `rnd()` returns never
-- reaches 1.
pub next_seed_below : (s : ℕ) → s < 2 ^ 31 → next_seed s ≢ 2 ^ 31 - 1
next_seed_below s h = elim (dec_lt (s * 1103515245 + 12345) (2 ^ 53)) [
  | yes p ↦
      λ e. odd_exact s ((s * 1103515245 + 12346) / 2 ^ 31) p (omega (arith, next_seed_exact s p, e))
  | no p ↦ λ e. omega (arith, next_seed-even s h (omega arith), e)
]

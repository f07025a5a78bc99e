-- ===== src/Mock/Random/Rounding.antt =====
-- What rounding to doubles leaves of the linear congruential generator.
use Prim.Native.Nat.{◌≤◌, ◌<◌}
use project_sh_fms.Prelude.{ℕ, ◌+◌, ◌*◌, ◌%◌, ◌^◌, ◌≡◌, arith, ◌⊎◌, inl, inr}
use project_sh_fms.Mock.Random.{ulp_from, round_to, double, next_seed}

-- The mask keeps the seed below 2^31.
pub next_seed-lt : (s : ℕ) → next_seed s < 2 ^ 31
unfolding next_seed
next_seed-lt s = omega arith

ulp_small : (n : ℕ) → n < 2 ^ 53 → ulp_from 11 1 n ≡ 1
unfolding ulp_from
ulp_small n h = ground arith

ulp_top : (n : ℕ) → 2 ^ 60 ≤ n → n < 2 ^ 62 → (ulp_from 11 1 n ≡ 256) ⊎ (ulp_from 11 1 n ≡ 512)
unfolding ulp_from
ulp_top n h k = ground arith

round_to-one : (n : ℕ) → round_to 1 n ≡ n
unfolding round_to
round_to-one n = ground arith

-- Rounding to a multiple of 256 moves a number by 128 at most.
round_to-256 :
    (n : ℕ) → (round_to 256 n % 256 ≡ 0) × (round_to 256 n ≤ n + 128) × (n ≤ round_to 256 n + 128)
unfolding round_to
round_to-256 n = ground arith

round_to-512 :
    (n : ℕ) → (round_to 512 n % 512 ≡ 0) × (round_to 512 n ≤ n + 256) × (n ≤ round_to 512 n + 256)
unfolding round_to
round_to-512 n = ground arith

pub double_small : (n : ℕ) → n < 2 ^ 53 → double n ≡ n
unfolding double
double_small n h = rw (ulp_small n h) (round_to-one n)

double_top :
    (n : ℕ)
    → 2 ^ 60 ≤ n
    → n < 2 ^ 62
    → (double n % 256 ≡ 0) × (double n ≤ n + 256) × (n ≤ double n + 256)
unfolding double
double_top n h k = elim (ulp_top n h k) [
  | inl e ↦ rw e (omega (arith, round_to-256 n))
  | inr e ↦ rw e (omega (arith, round_to-512 n))
]

-- While the product is a number that a double holds, the generator is the linear congruential
-- one that its constants name.
pub next_seed_exact :
    (s : ℕ) → s * 1103515245 + 12345 < 2 ^ 53 → next_seed s ≡ (s * 1103515245 + 12345) % 2 ^ 31
unfolding next_seed
next_seed_exact s h =
    rw (double_small (s * 1103515245) (omega arith)) (rw (double_small (s * 1103515245 + 12345) h))

-- In the upper half of its range a seed gives a multiple of 256: rounding has taken the low bits.
pub next_seed_top : (s : ℕ) → 2 ^ 30 ≤ s → s < 2 ^ 31 → next_seed s % 256 ≡ 0
unfolding next_seed
next_seed_top s h k =
    let d = double_top (s * 1103515245) (omega arith) (omega arith) in
    omega
      (arith, d, double_top (double (s * 1103515245) + 12345) (omega (arith, d)) (omega (arith, d)))

-- ===== src/Mock/Random.antt =====
-- assets/js/mock.js, lines 10-12: the generator of pseudo-random numbers. The seed is a whole
-- number below 2^31, but the product with the multiplier passes 2^53, so JavaScript rounds it to
-- the nearest double, ties to even, before the mask is applied. That rounding is written out here,
-- for numbers below 2^64.
pub mod Rounding
pub mod Range
pub mod Period
use project_sh_fms.Prelude.{ℕ, zero, suc, ◌+◌, ◌*◌, ◌/◌, ◌%◌, ◌^◌, ltb, ◌==◌, if◌then◌else◌}

abbrev pub initial_seed : ℕ
initial_seed = 20260923

-- The gap between neighbouring doubles at `n`: the least power of 2, from `u` on, at which `n`
-- has at most 53 bits.
unfoldable pub ulp_from : ℕ → ℕ → ℕ → ℕ
ulp_from zero u n = u
ulp_from (suc f) u n = let more = ulp_from f (u * 2) n in if ltb n (2 ^ 53 * u) then u else more

unfoldable pub round_to : ℕ → ℕ → ℕ
round_to u n =
    let q = n / u in
    let r = n % u in
    if ltb (2 * r) u
    then q * u
    else if ltb u (2 * r)
    then (q + 1) * u
    else if q % 2 == 0
    then q * u
    else (q + 1) * u

-- The double nearest to a whole number.
unfoldable pub double : ℕ → ℕ
unfolding ulp_from round_to
double n = round_to (ulp_from 11 1 n) n

-- `seed = (seed * 1103515245 + 12345) & 0x7fffffff`
unfoldable pub next_seed : ℕ → ℕ
next_seed s = double (double (s * 1103515245) + 12345) % 2 ^ 31

-- The seed after `n` draws.
unfoldable pub draws : ℕ → ℕ → ℕ
draws zero s = s
draws (suc n) s = draws n (next_seed s)

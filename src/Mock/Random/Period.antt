-- ===== src/Mock/Random/Period.antt =====
-- How soon the seeds of a page repeat.
use native.Mathlib.Nat.{zero-add, suc-add}
use project_sh_fms.Prelude.{ℕ, zero, suc, ◌+◌, ◌≡◌, refl, ap, ◌∙◌, sym}
use project_sh_fms.Mock.Random.{initial_seed, next_seed, double, draws}

pub draws-add : (m n s : ℕ) → draws (m + n) s ≡ draws n (draws m s)
unfolding draws
draws-add zero n s = ap (λ k. draws k s) (zero-add n)
draws-add (suc m) n s = ap (λ k. draws k s) (suc-add m n) ∙ draws-add m n (next_seed s)

closing : draws 12379 initial_seed ≡ draws 1913 initial_seed
unfolding draws next_seed double
closing = refl

-- After the first 1913 draws of a page the seeds repeat with period 10466.
pub draws_periodic : (n : ℕ) → draws (12379 + n) initial_seed ≡ draws (1913 + n) initial_seed
draws_periodic n =
    draws-add 12379 n initial_seed ∙ ap (draws n) closing ∙ sym (draws-add 1913 n initial_seed)

-- ===== src/Examples/Random.antt =====
-- Draws of the generator.
use project_sh_fms.Prelude.{◌+◌, ◌≡◌, refl}
use project_sh_fms.Mock.Random.{initial_seed, next_seed, double, draws}
use project_sh_fms.Mock.Random.Period.{draws_periodic}

first_draws : (next_seed initial_seed ≡ 1317423960) × (next_seed 1317423960 ≡ 2016613376)
unfolding next_seed double
first_draws = (refl, refl)

draws_periodic_example : draws (12379 + 5) initial_seed ≡ draws (1913 + 5) initial_seed
draws_periodic_example = draws_periodic 5

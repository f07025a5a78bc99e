-- ===== src/Mock/Energy.antt =====
-- assets/js/mock.js, lines 151-161: what a day has used of power, steam and water, by the hour.
pub mod Hours
use project_sh_fms.Prelude.{
  ℕ, zero, suc, ◌+◌, ◌*◌, Bool, not, ◌&&◌, List, [], ◌∷◌, Text, if◌then◌else◌, ltb,
}
use project_sh_fms.Number.{Number}
use project_sh_fms.Mock.Random.{next_seed}
use project_sh_fms.Mock.Format.{pad}
use project_sh_fms.Mock.Simulator.{fixed, rnd_value}

-- `i >= 8 && i < 20`
abbrev pub is_day : ℕ → Bool
is_day i = not (ltb i 8) && ltb i 20

module _ (r : Number) where
  open r use {Num, lit, add, mul, round}

  -- `a + rnd() * b` with the seed that rnd() leaves.
  abbrev pub spread : Num → Num → ℕ → Num
  spread a b seed = add a (mul (rnd_value r seed) b)

  unfoldable pub power_at : ℕ → ℕ → Num
  power_at i seed = round (
      if is_day i then spread (lit 980 0) (lit 260 0) seed else spread (lit 420 0) (lit 120 0) seed)

  unfoldable pub steam_at : ℕ → ℕ → Num
  steam_at i seed =
      fixed r
        (if is_day i then spread (lit 26 1) (lit 9 1) seed else spread (lit 11 1) (lit 4 1) seed) 2

  unfoldable pub water_at : ℕ → ℕ → Num
  water_at i seed =
      round (if is_day i then spread (lit 18 0) (lit 7 0) seed else spread (lit 7 0) (lit 3 0) seed)

  pub record Energy : Type 0 where
    pub hours : List Text
    pub power : List Num
    pub steam : List Num
    pub water : List Num

  -- The loop, from the hour `i` on, with the number of hours left.
  unfoldable pub energy_from : ℕ → ℕ → ℕ → Energy × ℕ
  energy_from i zero seed = (record { hours = []; power = []; steam = []; water = [] }, seed)
  energy_from i (suc n) seed =
      let s1 = next_seed seed in
      let s2 = next_seed s1 in
      let s3 = next_seed s2 in
      let (e, last) = energy_from (i + 1) n s3 in
      (
        record {
          hours = pad i ∷ e.hours;
          power = power_at i s1 ∷ e.power;
          steam = steam_at i s2 ∷ e.steam;
          water = water_at i s3 ∷ e.water;
        },
        last,
      )

  unfoldable pub energy : ℕ → Energy × ℕ
  energy seed = energy_from 0 24 seed

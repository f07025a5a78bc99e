-- ===== src/Mock/Energy/Hours.antt =====
-- The hours of a day's energy.
use Prim.Native.Nat.{◌<◌}
use project_sh_fms.Prelude.{
  ℕ, zero, suc, ◌+◌, ◌*◌, ◌≡◌, refl, ap, subst, some, arith, length, get_elem?,
}
use project_sh_fms.Number.{Number}
use project_sh_fms.Mock.Random.{next_seed, draws}
use project_sh_fms.Mock.Format.{pad}
use project_sh_fms.Mock.Energy.{Energy, energy_from, energy, power_at, steam_at, water_at}

module _ (r : Number) where
  -- The entries of the hour `i`, at the index `j` of a table whose first hour was drawn from `s`.
  pub record IsHour (e : Energy r) (j i s : ℕ) : Type 0 where
    pub hour : get_elem? e.hours j ≡ some (pad i)
    pub power : get_elem? e.power j ≡ some (power_at r i (draws (3 * j + 1) s))
    pub steam : get_elem? e.steam j ≡ some (steam_at r i (draws (3 * j + 2) s))
    pub water : get_elem? e.water j ≡ some (water_at r i (draws (3 * j + 3) s))

  later :
      (j k s : ℕ)
      → draws (3 * j + k) (next_seed (next_seed (next_seed s))) ≡ draws (3 * suc j + k) s
  unfolding draws
  later j k s = let e : 3 * suc j + k ≡ suc (suc (suc (3 * j + k))) = omega arith in rw e refl

  first-IsHour : (i n s : ℕ) → IsHour (energy_from r i (suc n) s).0 0 i s
  unfolding energy_from draws
  first-IsHour i n s = record { hour = refl; power = refl; steam = refl; water = refl }

  energy_from-IsHour : (i n j s : ℕ) → j < n → IsHour (energy_from r i n s).0 j (i + j) s
  unfolding energy_from
  energy_from-IsHour i zero j s h = absurd (omega (arith, h))
  energy_from-IsHour i (suc n) zero s h =
      let e : i + 0 ≡ i = omega arith in rw e (first-IsHour i n s)
  energy_from-IsHour i (suc n) (suc j) s h =
      let q =
        energy_from-IsHour (i + 1) n j (next_seed (next_seed (next_seed s))) (omega (arith, h)) in
      let e : i + 1 + j ≡ i + suc j = omega arith in
      rw (← e) (record {
        hour = q.hour;
        power = rw (← later j 1 s) q.power;
        steam = rw (← later j 2 s) q.steam;
        water = rw (← later j 3 s) q.water;
      })

  length-energy_from :
      (i n s : ℕ)
      → let (e, last) = energy_from r i n s in
        (length e.hours ≡ n)
        × (length e.power ≡ n)
        × (length e.steam ≡ n)
        × (length e.water ≡ n)
        × (last ≡ draws (3 * n) s)
  unfolding energy_from draws
  length-energy_from i zero s = (refl, refl, refl, refl, refl)
  length-energy_from i (suc n) s =
      let (a, b, c, d, e) = length-energy_from (i + 1) n (next_seed (next_seed (next_seed s))) in
      let m : 3 * suc n ≡ suc (suc (suc (3 * n))) = omega arith in
      (ap suc a, ap suc b, ap suc c, ap suc d, rw m e)

  -- A day's energy has the 24 hours from 00 on and a number of power, steam and water for each, the
  -- numbers of an hour being drawn from the three random numbers of its turn, 72 in all.
  pub energy_hours :
      (i s : ℕ)
      → i < 24
      → let (e, last) = energy r s in
        IsHour e i i s
        × (length e.hours ≡ 24)
        × (length e.power ≡ 24)
        × (length e.steam ≡ 24)
        × (length e.water ≡ 24)
        × (last ≡ draws 72 s)
  unfolding energy
  energy_hours i s h =
      let (a, b, c, d, e) = length-energy_from 0 24 s in
      let z : 0 + i ≡ i = omega arith in
      let q = energy_from-IsHour 0 24 i s h in
      (subst (λ k. IsHour (energy_from r 0 24 s).0 i k s) z q, a, b, c, d, e)

-- ===== src/Mock/Trend.antt =====
-- assets/js/mock.js, lines 197-212: the trend of a tag, newest value last.
pub mod Points
use project_sh_fms.Prelude.{
  ℕ, zero, suc, ◌*◌, ◌-◌, List, [], ◌∷◌, Option, none, some, Text, if◌then◌else◌, ◌==◌, head_or,
}
use project_sh_fms.Number.{Number}
use project_sh_fms.Mock.Random.{next_seed}
use project_sh_fms.Mock.Format.{Date, hhmm}
use project_sh_fms.Mock.Tags.{Tag}
use project_sh_fms.Mock.Tags.Initial.{first_tag}
use project_sh_fms.Mock.Simulator.{fixed, rnd_value, tag}

abbrev pub or_else {ℓ} : {A : Type ℓ} → Option A → A → A
or_else none a = a
or_else (some b) a = b

-- `points || 120`
unfoldable pub or_120 : ℕ → ℕ
or_120 n = if n == 0 then 120 else n

module _ (r : Number) where
  open r use {Num, lit, add, sub, mul, abs}

  -- One turn of the loop of `history`: the value is pulled to the set point, with noise.
  unfoldable pub drifted : Tag r → Num → ℕ → Num
  drifted t v seed =
      let drift = mul (sub t.sp v) (lit 6 2) in
      add (add v drift)
        (mul (sub (rnd_value r seed) (lit 5 1)) (mul (abs (sub t.hi t.lo)) (lit 6 2)))

  pub record Trend : Type 0 where
    pub labels : List Text
    pub values : List Num
    pub tag : Tag r

  -- The loop `for (i = points - 1; i >= 0; i--)`, with `i + 1` turns left.
  unfoldable pub trend_from : (ℕ → Date) → ℕ → Tag r → ℕ → Num → ℕ → List Text × List Num × ℕ
  trend_from local now t zero v seed = ([], [], seed)
  trend_from local now t (suc i) v seed =
      let seed' = next_seed seed in
      let v' = drifted t v seed' in
      let (ls, vs, last) = trend_from local now t i v' seed' in
      (hhmm (local (now - i * 60000)) ∷ ls, fixed r v' 3 ∷ vs, last)

  unfoldable pub history : (ℕ → Date) → ℕ → List (Tag r) → Text → ℕ → ℕ → Trend × ℕ
  unfolding or_120 tag
  history local now ts name points seed =
      let t = or_else (tag r ts name) (head_or ts (first_tag r)) in
      let (ls, vs, last) = trend_from local now t (or_120 points) t.pv seed in
      (record { labels = ls; values = vs; tag = t }, last)

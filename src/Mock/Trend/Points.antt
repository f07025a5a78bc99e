-- ===== src/Mock/Trend/Points.antt =====
-- The points of a trend.
use project_sh_fms.Prelude.{
  ℕ, zero, suc, ◌+◌, ◌*◌, ◌-◌, ◌≡◌, refl, ap, List, arith, Text, length, get_elem?, some, head_or,
}
use project_sh_fms.Number.{Number}
use project_sh_fms.Mock.Random.{next_seed, draws}
use project_sh_fms.Mock.Format.{Date, hhmm}
use project_sh_fms.Mock.Tags.{Tag}
use project_sh_fms.Mock.Tags.Initial.{first_tag}
use project_sh_fms.Mock.Simulator.{tag}
use project_sh_fms.Mock.Trend.{or_120, or_else, trend_from, history, drifted}

module _ (r : Number) (local : ℕ → Date) (now : ℕ) where
  length-trend_from :
      (t : Tag r) (n : ℕ) (v : r.Num) (s : ℕ)
      → let (ls, vs, last) = trend_from r local now t n v s in
        (length ls ≡ n) × (length vs ≡ n) × (last ≡ draws n s)
  unfolding trend_from draws
  length-trend_from t zero v s = (refl, refl, refl)
  length-trend_from t (suc n) v s =
      let (a, b, c) = length-trend_from t n (drifted r t v (next_seed s)) (next_seed s) in
      (ap suc a, ap suc b, c)

  label-trend_from :
      (t : Tag r) (n j i : ℕ) (v : r.Num) (s : ℕ)
      → j + suc i ≡ n
      → get_elem? (trend_from r local now t n v s).0 j ≡ some (hhmm (local (now - i * 60000)))
  unfolding trend_from
  label-trend_from t zero j i v s e = absurd (omega arith)
  label-trend_from t (suc n) zero i v s e =
      let q : n ≡ i = omega arith in ap (λ k. some (hhmm (local (now - k * 60000)))) q
  label-trend_from t (suc n) (suc j) i v s e =
      label-trend_from t n j i (drifted r t v (next_seed s)) (next_seed s) (omega arith)

  -- A trend has as many labels as points, the number asked for or 120 where 0 is asked; each point
  -- has drawn one random number; and the label with `i` labels behind it is the time of day `i`
  -- minutes before now, so the last one is now.
  pub history_points :
      (ts : List (Tag r)) (name : Text) (points s j i : ℕ)
      → j + suc i ≡ or_120 points
      → let (h, last) = history r local now ts name points s in
        (length h.labels ≡ or_120 points)
        × (length h.values ≡ or_120 points)
        × (last ≡ draws (or_120 points) s)
        × (get_elem? h.labels j ≡ some (hhmm (local (now - i * 60000))))
  unfolding history
  history_points ts name points s j i e =
      let t = or_else (tag r ts name) (head_or ts (first_tag r)) in
      let (a, b, c) = length-trend_from t (or_120 points) t.pv s in
      (a, b, c, label-trend_from t (or_120 points) j i t.pv s e)

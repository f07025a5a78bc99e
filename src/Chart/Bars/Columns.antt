-- ===== src/Chart/Bars/Columns.antt =====
-- The columns of a bar chart.
use project_sh_fms.Prelude.{ℕ, ◌+◌, ◌≡◌, refl, ap, List, [], ◌∷◌, Text, Bool-cases, inl, inr}
use project_sh_fms.Number.{Number}
use project_sh_fms.Chart.{Decades, Shape, bar, map_from}
use project_sh_fms.Chart.Bars.{BarOptions, bars, columns, column, bar_left, bar_height}

module _ (r : Number) where
  -- A bar as its left end and its height.
  abbrev pub bars_of : List (Shape r) → List (r.Num × r.Num)
  bars_of [] = []
  bars_of (bar x y w h ∷ xs) = (x, h) ∷ bars_of xs
  bars_of (_ ∷ xs) = bars_of xs

  module _ (t : Decades r) (o : BarOptions r) (print : r.Num → Text) where
    bars-columns :
        (i : ℕ) (vs : List r.Num)
        → bars_of (columns r t o print i vs)
          ≡ map_from (λ j v. (bar_left r t o j, bar_height r t o v)) i vs
    unfolding columns column
    bars-columns i [] = refl
    bars-columns i (v ∷ vs) =
        let rest = ap (λ z. (bar_left r t o i, bar_height r t o v) ∷ z) (bars-columns (i + 1) vs) in
        elim (Bool-cases o.show_value) [ inl e ↦ rw e rest | inr e ↦ rw e rest ]

    -- A bar chart draws one bar for each of its values and no other, in their order, each beginning
    -- where its column does and as high as its value asks.
    pub bars-bars :
        bars_of (bars r t o print)
        ≡ map_from (λ j v. (bar_left r t o j, bar_height r t o v)) 0 o.values
    unfolding bars
    bars-bars = bars-columns 0 o.values

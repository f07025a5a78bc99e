-- ===== src/Chart/Lines.antt =====
-- The lines of a line chart.
use project_sh_fms.Prelude.{
  ℕ, ◌+◌, ◌≡◌, refl, ap, ap₂, ◌∙◌, Bool, true, false, List, [], ◌∷◌, ◌++◌, map, Option, none, some,
  Text, length, arith, All, append-nil,
}
use project_sh_fms.Number.{Number}
use project_sh_fms.Chart.{
  Stop, Shape, rule, text, path, fill, circle, bar, Series, Ref, Options, Axes, Decades, ref_line,
  series_of, dots_of, stops, stop_at, thinned, x_labels, each, axes, line, map_from, height,
  label_step, ref_label, x_at, y_at,
}

module _ (r : Number) where
  -- The paths of a drawing, each with its commands, in the order in which they are drawn.
  abbrev pub paths : List (Shape r) → List (List (Stop r))
  paths [] = []
  paths (path d ∷ xs) = d ∷ paths xs
  paths (_ ∷ xs) = paths xs

  paths-append : (xs ys : List (Shape r)) → paths (xs ++ ys) ≡ paths xs ++ paths ys
  paths-append [] ys = refl
  paths-append (path d ∷ xs) ys = ap (λ z. d ∷ z) (paths-append xs ys)
  paths-append (rule p q s t ∷ xs) ys = paths-append xs ys
  paths-append (text p q s ∷ xs) ys = paths-append xs ys
  paths-append (fill d p q ∷ xs) ys = paths-append xs ys
  paths-append (circle p q ∷ xs) ys = paths-append xs ys
  paths-append (bar p q s t ∷ xs) ys = paths-append xs ys

  paths-ref_line : (a : Axes r) (f : Ref r) → paths (ref_line r a f) ≡ []
  paths-ref_line a f = go f.label
    where
      go : (o : Option Text) → paths (ref_label r (y_at r a f.v) o) ≡ []
      go none = refl
      go (some s) = refl

  paths-dots : (b : Bool) (a : Axes r) (vs : List r.Num) → paths (dots_of r b a vs) ≡ []
  paths-dots false a vs = refl
  paths-dots true a vs = go (length vs) 0 vs
    where
      go :
          (n i : ℕ) (ws : List r.Num)
          → paths (map_from (λ i v. circle (x_at r a i n) (y_at r a v)) i ws) ≡ []
      go n i [] = refl
      go n i (w ∷ ws) = go n (i + 1) ws

  paths-series :
      (b : Bool) (a : Axes r) (se : Series r)
      → paths (series_of r b a se) ≡ stops r a se.values ∷ []
  paths-series false a se = ap (λ z. stops r a se.values ∷ z) (paths-dots se.dots a se.values)
  paths-series true a se = ap (λ z. stops r a se.values ∷ z) (paths-dots se.dots a se.values)

  paths-thinned :
      (a : Axes r) (y : r.Num) (s n i : ℕ) (ls : List Text) → paths (thinned r a y s n i ls) ≡ []
  unfolding thinned
  paths-thinned a y s n i [] = refl
  paths-thinned a y s n i (l ∷ ls) = ground (arith, paths-thinned a y s n (i + 1) ls)

  paths-x_labels : (a : Axes r) (y : r.Num) (o : Option (List Text)) → paths (x_labels r a y o) ≡ []
  unfolding x_labels
  paths-x_labels a y none = refl
  paths-x_labels a y (some ls) = paths-thinned a y (label_step r (length ls)) (length ls) 0 ls

  paths-refs : (a : Axes r) (fs : List (Ref r)) → paths (each r (ref_line r a) fs) ≡ []
  paths-refs a [] = refl
  paths-refs a (f ∷ fs) =
      paths-append (ref_line r a f) (each r (ref_line r a) fs)
      ∙ ap₂ ◌++◌ (paths-ref_line a f) (paths-refs a fs)

  paths-all :
      (b : Bool) (a : Axes r) (ss : List (Series r))
      → paths (each r (series_of r b a) ss) ≡ map (λ se. stops r a se.values) ss
  paths-all b a [] = refl
  paths-all b a (se ∷ ss) =
      paths-append (series_of r b a se) (each r (series_of r b a) ss)
      ∙ ap₂ ◌++◌ (paths-series b a se) (paths-all b a ss)

  -- The first command of a path moves to its point and the others draw on from there.
  abbrev pub IsDrawn : List (Stop r) → Type 0
  IsDrawn [] = Unit
  IsDrawn (d ∷ ds) = (d.is_move ≡ true) × All (λ x. x.is_move ≡ false) ds

  stops_later :
      (a : Axes r) (n i : ℕ) (vs : List r.Num)
      → All (λ d. d.is_move ≡ false) (map_from (stop_at r a n) (i + 1) vs)
  unfolding stop_at
  stops_later a n i [] = tt
  stops_later a n i (v ∷ vs) = (ground arith, stops_later a n (i + 1) vs)

  stops-IsDrawn : (a : Axes r) (vs : List r.Num) → IsDrawn (stops r a vs)
  unfolding stops stop_at
  stops-IsDrawn a [] = tt
  stops-IsDrawn a (v ∷ vs) = (refl, stops_later a (length (v ∷ vs)) 0 vs)

  All-IsDrawn :
      (a : Axes r) (ss : List (Series r)) → All IsDrawn (map (λ se. stops r a se.values) ss)
  All-IsDrawn a [] = tt
  All-IsDrawn a (se ∷ ss) = (stops-IsDrawn a se.values, All-IsDrawn a ss)

  module _ (t : Decades r) where
    -- A line chart draws one path for each of its series, in their order, through the points of
    -- its values, and each path begins with its only move; nothing else of the chart is a path.
    pub paths-line :
        (o : Options r)
        → (paths (line r t o) ≡ map (λ se. stops r (axes r t o) se.values) o.series)
          × All IsDrawn (paths (line r t o))
    unfolding line
    paths-line o =
        let a : Axes r = axes r t o in
        let y = r.sub (height r o) (r.lit 5 0) in
        let refs = each r (ref_line r a) o.refs in
        let ss = each r (series_of r o.area a) o.series in
        let e : paths (line r t o) ≡ map (λ se. stops r a se.values) o.series =
          paths-append refs (ss ++ x_labels r a y o.labels)
          ∙ ap₂ ◌++◌ (paths-refs a o.refs) (
              paths-append ss (x_labels r a y o.labels)
              ∙ ap₂ ◌++◌ (paths-all o.area a o.series) (paths-x_labels a y o.labels)
              ∙ append-nil _) in
        (e, rw e (All-IsDrawn a o.series))

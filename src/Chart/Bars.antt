-- ===== src/Chart/Bars.antt =====
-- assets/js/chart.js: bars() and spark().
pub mod Columns
use project_sh_fms.Prelude.{
  ℕ, zero, suc, ◌+◌, ◌-◌, ◌*◌, Bool, true, false, List, [], ◌∷◌, ◌++◌, Option, none, some, Text,
  if◌then◌else◌, ◌==◌, length, get_elem?,
}
use project_sh_fms.Number.{Number}
use project_sh_fms.Chart.{
  Decades, Shape, rule, text, path, bar, Stop, whole, or_else, or_number, largest_of, nice_max,
  given, map_from, each,
}

module _ (r : Number) where
  open r use {Num, lit, add, sub, mul, div, max, min, round, lt, to_fixed}

  -- `opt` of bars(), whose `data` are the values.
  pub record BarOptions : Type 0 where
    pub labels : List Text
    pub values : List Num
    pub h : Option Num
    pub max : Option Num
    pub show_value : Bool

  -- A missing label leaves its text empty.
  abbrev pub label_at : List Text → ℕ → Text
  label_at ls i = elim (get_elem? ls i) [ none ↦ [] | some l ↦ l ]

  module _ (t : Decades r) (o : BarOptions) where
    abbrev pub bars_height : Num
    bars_height = or_number r o.h (whole r 170)

    abbrev pub inner_height : Num
    inner_height = sub (sub bars_height (whole r 12)) (whole r 22)

    abbrev pub bars_max : Num
    bars_max = given r o.max (nice_max r t (lit 115 2) (largest_of r o.values))

    -- `bw`
    abbrev pub bar_width : Num
    bar_width = div (whole r 578) (whole r (length o.values))

    abbrev pub bar_gridline : ℕ → List (Shape r)
    bar_gridline g =
        let y =
          sub (add (whole r 12) inner_height) (div (mul inner_height (whole r g)) (whole r 3)) in
        rule (whole r 34) y (whole r 612) y
        ∷ text (sub (whole r 34) (whole r 5)) (add y (whole r 3))
            (to_fixed (round (div (mul bars_max (whole r g)) (whole r 3))) 0)
        ∷ []

    -- `bh`
    abbrev pub bar_height : Num → Num
    bar_height v = max (whole r 1) (div (mul inner_height v) bars_max)

    abbrev pub bar_left : ℕ → Num
    bar_left i = add (add (whole r 34) (mul bar_width (whole r i))) (mul bar_width (lit 18 2))

    -- One turn of `data.forEach`. The text of a value is the number as it prints itself.
    unfoldable pub column : (Num → Text) → ℕ → Num → List (Shape r)
    column print i v =
        let top = sub (add (whole r 12) inner_height) (bar_height v) in
        let middle = add (bar_left i) (mul bar_width (lit 32 2)) in
        let name = text middle (sub bars_height (whole r 6)) (label_at o.labels i) in
        bar (bar_left i) top (mul bar_width (lit 64 2)) (bar_height v)
        ∷ (if o.show_value
            then text middle (sub top (whole r 4)) (print v) ∷ name ∷ []
            else name ∷ [])

    unfoldable pub columns : (Num → Text) → ℕ → List Num → List (Shape r)
    columns print i [] = []
    columns print i (v ∷ vs) = column print i v ++ columns print (i + 1) vs

    -- bars()
    unfoldable pub bars : (Num → Text) → List (Shape r)
    bars print = each r bar_gridline (0 ∷ 1 ∷ 2 ∷ 3 ∷ []) ++ columns print 0 o.values

  -- `Math.min.apply(null, xs)`
  abbrev pub smallest_of : List Num → Option Num
  smallest_of [] = none
  smallest_of (x ∷ []) = some x
  smallest_of (x ∷ xs) = elim (smallest_of xs) [ none ↦ some x | some y ↦ some (min x y) ]

  abbrev pub spark_stop : ℕ → Num → Num → ℕ → Num → Stop r
  spark_stop len mn mx i v = record {
    is_move = i == 0;
    x = to_fixed (div (mul (whole r 90) (whole r i)) (sub (whole r len) (whole r 1))) 1;
    y =
        to_fixed
          (sub (sub (whole r 22) (whole r 2)) (
            div (mul (sub (whole r 22) (whole r 4)) (sub v mn))
              (or_else r (sub mx mn) (whole r 1))))
          1;
  }

  -- spark(). Without data its path is empty, and no extreme is asked.
  unfoldable pub spark : List Num → List (Shape r)
  spark vs =
      let mn = given r (smallest_of vs) (whole r 0) in
      let mx = given r (largest_of r vs) (whole r 0) in
      path (map_from (spark_stop (length vs) mn mx) 0 vs) ∷ []

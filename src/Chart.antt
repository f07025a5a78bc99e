-- ===== src/Chart.antt =====
-- assets/js/chart.js: what its charts draw, as a list of the elements of the drawing in the order
-- in which they are appended, with the attributes that depend on the data.
pub mod Lines
pub mod Bars
pub mod Labels
pub mod Round
pub mod Slices
use project_sh_fms.Prelude.{
  ℕ, zero, suc, ◌+◌, ◌-◌, ◌*◌, ◌/◌, ◌%◌, Bool, true, false, not, List, [], ◌∷◌, ◌++◌, map, Option,
  none, some, Text, codes, if◌then◌else◌, ◌==◌, length,
}
use project_sh_fms.Number.{Number}

-- What Math.log10 and Math.pow give besides: 10^⌊log10 v⌋.
pub record Decades (r : Number) : Type 0 where
  pub decade_below : r.Num → r.Num

-- `Array.prototype.map` with the index.
module _ {ℓ κ} {A : Type ℓ} {B : Type κ} where
  abbrev pub map_from : (ℕ → A → B) → ℕ → List A → List B
  map_from f i [] = []
  map_from f i (x ∷ xs) = f i x ∷ map_from f (i + 1) xs

module _ (r : Number) where
  open r use {
    Num, lit, neg, add, sub, mul, div, max, min, floor, round, le, lt, to_fixed, to_number,
  }

  abbrev pub whole : ℕ → Num
  whole n = lit n 0

  -- A command of a path: M or L, with its point.
  pub record Stop : Type 0 where
    pub is_move : Bool
    pub x : Text
    pub y : Text

  -- An element: a line between two points, a text at a point, a path, the fill under a path with
  -- the two abscissas of its bottom, a circle or a bar.
  pub data Shape : Type 0 where
    rule : Num → Num → Num → Num → Shape
    text : Num → Num → Text → Shape
    path : List Stop → Shape
    fill : List Stop → Num → Num → Shape
    circle : Num → Num → Shape
    bar : Num → Num → Num → Num → Shape

  pub record Series : Type 0 where
    pub values : List Num
    pub dots : Bool

  pub record Ref : Type 0 where
    pub v : Num
    pub label : Option Text

  -- An element of `opt.series`, whose `data` are the values, and below `opt` of line(). A missing list of reference lines is empty.
  pub record Options : Type 0 where
    pub labels : Option (List Text)
    pub series : List Series
    pub h : Option Num
    pub max : Option Num
    pub min : Option Num
    pub area : Bool
    pub refs : List Ref

  -- `x || y` on numbers: 0 and NaN are neither below nor above 0.
  abbrev pub or_else : Num → Num → Num
  or_else x y = if lt x (whole 0) then x else if lt (whole 0) x then x else y

  abbrev pub or_number : Option Num → Num → Num
  or_number none y = y
  or_number (some x) y = or_else x y

  -- `Math.max.apply(null, xs)`, which is -Infinity where there is none.
  abbrev pub largest_of : List Num → Option Num
  largest_of [] = none
  largest_of (x ∷ []) = some x
  largest_of (x ∷ xs) = elim (largest_of xs) [ none ↦ some x | some y ↦ some (max x y) ]

  abbrev pub rounded_up : Num → Num
  rounded_up m =
      if le m (whole 1)
      then whole 1
      else if le m (whole 2)
      then whole 2
      else if le m (whole 5)
      then whole 5
      else whole 10

  module _ (t : Decades r) where
    -- niceMax, of a multiple of a largest number.
    unfoldable pub nice_max : Num → Option Num → Num
    nice_max k none = whole 10
    nice_max k (some x) =
        let v = mul x k in
        let e = t.decade_below v in
        if le v (whole 0) then whole 10 else mul (rounded_up (div v e)) e

  -- The frame of a chart of points: the inner width and height, and the ends of its scale.
  pub record Axes : Type 0 where
    pub iw : Num
    pub ih : Num
    pub low : Num
    pub high : Num

  abbrev pub pad_l : Num
  pad_l = whole 34

  abbrev pub pad_t : Num
  pad_t = whole 10

  unfoldable pub x_at : Axes → ℕ → ℕ → Num
  x_at a i zero = add pad_l (whole 0)
  x_at a i (suc zero) = add pad_l (whole 0)
  x_at a i (suc (suc n)) = add pad_l (div (mul a.iw (whole i)) (whole (suc n)))

  unfoldable pub y_at : Axes → Num → Num
  y_at a v =
      sub (add pad_t a.ih) (div (mul a.ih (sub v a.low)) (or_else (sub a.high a.low) (whole 1)))

  -- The text of a gridline. String and toFixed(0) agree on integers below 10^21.
  abbrev pub scale_text : Axes → Num → Text
  scale_text a v = if lt (whole 20) (sub a.high a.low) then to_fixed (round v) 0 else to_fixed v 1

  abbrev pub gridline : Axes → ℕ → List Shape
  gridline a g =
      let v = add a.low (div (mul (sub a.high a.low) (whole g)) (whole 4)) in
      let y = y_at a v in
      rule pad_l y (whole 610) y
      ∷ text (sub pad_l (whole 5)) (add y (whole 3)) (scale_text a v)
      ∷ []

  abbrev pub ref_label : Num → Option Text → List Shape
  ref_label y none = []
  ref_label y (some s) = text (whole 608) (sub y (whole 3)) s ∷ []

  abbrev pub ref_line : Axes → Ref → List Shape
  ref_line a f = rule pad_l (y_at a f.v) (whole 610) (y_at a f.v) ∷ ref_label (y_at a f.v) f.label

  unfoldable pub stop_at : Axes → ℕ → ℕ → Num → Stop
  stop_at a len i v = record {
    is_move = i == 0;
    x = to_fixed (x_at a i len) 1;
    y = to_fixed (y_at a v) 1;
  }

  unfoldable pub stops : Axes → List Num → List Stop
  stops a vs = map_from (stop_at a (length vs)) 0 vs

  abbrev pub fills : Bool → Axes → Series → List Shape
  fills false a se = []
  fills true a se =
      let len = length se.values in
      fill (stops a se.values) (x_at a (len - 1) len) (x_at a 0 len) ∷ []

  abbrev pub dots_of : Bool → Axes → List Num → List Shape
  dots_of false a vs = []
  dots_of true a vs = map_from (λ i v. circle (x_at a i (length vs)) (y_at a v)) 0 vs

  abbrev pub series_of : Bool → Axes → Series → List Shape
  series_of area a se = fills area a se ++ path (stops a se.values) ∷ dots_of se.dots a se.values

  -- `labels.forEach`, with `if (i % step) return;`
  unfoldable pub thinned : Axes → Num → ℕ → ℕ → ℕ → List Text → List Shape
  thinned a y step len i [] = []
  thinned a y step len i (l ∷ ls) =
      let rest = thinned a y step len (i + 1) ls in
      if i % step == 0 then text (x_at a i len) y l ∷ rest else rest

  -- `Math.ceil(len / 10)`
  abbrev pub label_step : ℕ → ℕ
  label_step len = (len + 9) / 10

  unfoldable pub x_labels : Axes → Num → Option (List Text) → List Shape
  unfolding thinned
  x_labels a y none = []
  x_labels a y (some ls) = thinned a y (label_step (length ls)) (length ls) 0 ls

  abbrev pub each {ℓ} : {A : Type ℓ} → (A → List Shape) → List A → List Shape
  each f [] = []
  each f (x ∷ xs) = f x ++ each f xs

  abbrev pub all_data : List Series → List Num
  all_data [] = []
  all_data (se ∷ ss) = se.values ++ all_data ss

  abbrev pub ref_values : List Ref → List Num
  ref_values [] = []
  ref_values (f ∷ fs) = f.v ∷ ref_values fs

  abbrev pub given : Option Num → Num → Num
  given none y = y
  given (some x) y = x

  abbrev pub height : Options → Num
  height o = or_number o.h (whole 180)

  module _ (t : Decades r) where
    unfoldable pub axes : Options → Axes
    unfolding nice_max
    axes o = record {
      iw = whole 576;
      ih = sub (sub (height o) pad_t) (whole 20);
      low = given o.min (whole 0);
      high =
          given o.max (nice_max t (lit 11 1) (largest_of (all_data o.series ++ ref_values o.refs)));
    }

    -- line()
    unfoldable pub line : Options → List Shape
    unfolding axes x_labels
    line o =
        let a = axes o in
        each (gridline a) (0 ∷ 1 ∷ 2 ∷ 3 ∷ 4 ∷ [])
        ++ (each (ref_line a) o.refs
            ++ (each (series_of o.area a) o.series
                ++ x_labels a (sub (height o) (whole 5)) o.labels))

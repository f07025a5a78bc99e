-- ===== src/Chart/Round.antt =====
-- The round charts of assets/js/chart.js: donut() and gauge().
use project_sh_fms.Prelude.{
  Bool, List, [], ◌∷◌, ◌++◌, Option, none, some, Text, codes, if◌then◌else◌,
}
use project_sh_fms.Number.{Number}
use project_sh_fms.Chart.{or_else, or_number}

-- Math.PI, Math.cos and Math.sin.
pub record Trig (r : Number) : Type 0 where
  pub pi : r.Num
  pub cos : r.Num → r.Num
  pub sin : r.Num → r.Num

module _ (r : Number) where
  open r use {Num}

  -- A point, with its two coordinates.
  pub record Point : Type 0 where
    pub x : Num
    pub y : Num

  -- What a round chart is made of: a slice between two radii, from its first point along the rim, in
  -- and back; an arc with its colour; a mark; and a text.
  pub data Piece : Type 0 where
    slice : Num → Num → Bool → Point → Point → Point → Point → Text → Piece
    arc : Num → Bool → Point → Point → Text → Piece
    mark : Point → Point → Piece
    words : Point → Text → Piece

  pub record Item : Type 0 where
    pub value : Num
    pub color : Text

  pub record DonutOptions : Type 0 where
    pub size : Option Num
    pub inner : Option Num
    pub center : Option Text
    pub center_sub : Option Text

  pub record GaugeOptions : Type 0 where
    pub color : Option Text
    pub target : Option Num
    pub label : Option Text

module _ (r : Number) (g : Trig r) where
  open r use {Num, lit, neg, add, sub, mul, div, max, min, lt, to_fixed}
  open g use {pi, cos, sin}

  -- The point of a circle round (cx, cy).
  abbrev pub on_circle : Num → Num → Num → Num → Point r
  on_circle cx cy radius a = record {
    x = add cx (mul radius (cos a));
    y = add cy (mul radius (sin a));
  }

  -- `items.reduce(…, 0) || 1`
  abbrev pub sum_from : Num → List (Item r) → Num
  sum_from x [] = x
  sum_from x (it ∷ its) = sum_from (add x it.value) its

  -- One slice, from an angle to another.
  abbrev pub slice_at : Num → Num → Num → Num → Text → Num → Num → Piece r
  slice_at cx cy rim inner color ang a2 =
      slice rim inner (lt pi (sub a2 ang)) (on_circle cx cy rim ang) (on_circle cx cy rim a2)
        (on_circle cx cy inner a2) (on_circle cx cy inner ang) color

  -- The loop over the items, from an angle on.
  unfoldable pub slices : Num → Num → Num → Num → Num → Num → List (Item r) → List (Piece r)
  slices cx cy rim inner total ang [] = []
  slices cx cy rim inner total ang (it ∷ its) =
      let a2 = add ang (div (mul (mul pi (lit 2 0)) it.value) total) in
      slice_at cx cy rim inner it.color ang a2 ∷ slices cx cy rim inner total a2 its

  -- `if (s) txt(…)`: a text that is missing or empty is not drawn.
  abbrev pub words_if : Option Text → Num → Num → List (Piece r)
  words_if none x y = []
  words_if (some []) x y = []
  words_if (some (c ∷ s)) x y = words (record { x = x; y = y }) (c ∷ s) ∷ []

  abbrev pub center_words : Option Text → Option Text → Num → List (Piece r)
  center_words none sub_text c = []
  center_words (some []) sub_text c = []
  center_words (some (k ∷ s)) sub_text c =
      words (record { x = c; y = add c (lit 2 0) }) (k ∷ s) ∷ words_if sub_text c (add c (lit 16 0))

  -- The middle of a donut, its rim and the angle at its top.
  abbrev pub middle : DonutOptions r → Num
  middle o = div (or_number r o.size (lit 150 0)) (lit 2 0)

  abbrev pub rim_of : DonutOptions r → Num
  rim_of o = sub (middle o) (lit 6 0)

  abbrev pub top_angle : Num
  top_angle = div (neg pi) (lit 2 0)

  -- donut
  unfoldable pub donut : List (Item r) → DonutOptions r → List (Piece r)
  donut items o =
      let c = middle o in
      let rim = rim_of o in
      slices c c rim (or_number r o.inner (mul rim (lit 62 2)))
        (or_else r (sum_from (lit 0 0) items) (lit 1 0)) top_angle items
      ++ center_words o.center o.center_sub c

  -- The inner function of gauge, for the middle (85, 86) and the radius 62.
  abbrev pub half_arc : Num → Num → Text → Piece r
  half_arc from to color =
      let a1 = add pi (mul pi from) in
      let a2 = add pi (mul pi to) in
      arc (lit 62 0) (lt pi (sub a2 a1)) (on_circle (lit 85 0) (lit 86 0) (lit 62 0) a1)
        (on_circle (lit 85 0) (lit 86 0) (lit 62 0) a2) color

  abbrev pub color_or : Option Text → Text
  color_or none = codes "#5f7d99"
  color_or (some []) = codes "#5f7d99"
  color_or (some (c ∷ s)) = c ∷ s

  abbrev pub target_mark : Option Num → List (Piece r)
  target_mark none = []
  target_mark (some x) =
      let a = add pi (mul pi (div x (lit 100 0))) in
      mark (on_circle (lit 85 0) (lit 86 0) (lit 54 0) a)
        (on_circle (lit 85 0) (lit 86 0) (lit 70 0) a)
      ∷ []

  -- `v`
  abbrev pub share : Num → Num
  share pct = div (max (lit 0 0) (min (lit 100 0) pct)) (lit 100 0)

  -- gauge
  unfoldable pub gauge : Num → GaugeOptions r → List (Piece r)
  gauge pct o =
      half_arc (lit 0 0) (lit 1 0) (codes "#212a36")
      ∷ ((if lt (lit 1 3) (share pct)
            then half_arc (lit 0 0) (share pct) (color_or o.color) ∷ []
            else [])
          ++ (target_mark o.target
              ++ (words (record { x = lit 85 0; y = sub (lit 86 0) (lit 12 0) })
                    (to_fixed pct 1 ++ codes "%")
                  ∷ words_if o.label (lit 85 0) (add (lit 86 0) (lit 6 0)))))

-- ===== src/Chart/Slices.antt =====
-- The slices of a donut of assets/js/chart.js.
use project_sh_fms.Prelude.{◌≡◌, refl, ap, List, [], ◌∷◌, ◌++◌, map, Option, none, some, Text}
use project_sh_fms.Number.{Number}
use project_sh_fms.Chart.Round.{
  Trig, Point, Piece, slice, Item, DonutOptions, on_circle, slices, words_if, center_words, middle,
  rim_of, top_angle, donut,
}

module _ (r : Number) where
  -- The colours of the slices.
  abbrev pub colours : List (Piece r) → List Text
  colours [] = []
  colours (slice _ _ _ _ _ _ _ c ∷ ps) = c ∷ colours ps
  colours (_ ∷ ps) = colours ps

  -- From a point on, each slice begins on the rim where the one before it ended.
  abbrev pub Joined : Point r → List (Piece r) → Type 0
  Joined p [] = Unit
  Joined p (slice _ _ _ a b _ _ _ ∷ ps) = (a ≡ p) × Joined b ps
  Joined p (_ ∷ ps) = Joined p ps

module _ (r : Number) (g : Trig r) where
  words_if-Joined :
      (s : Option Text) (x y : r.Num) (p : Point r)
      → (colours r (words_if r g s x y) ≡ []) × Joined r p (words_if r g s x y)
  words_if-Joined none x y p = (refl, tt)
  words_if-Joined (some []) x y p = (refl, tt)
  words_if-Joined (some (c ∷ s)) x y p = (refl, tt)

  center_words-Joined :
      (s k : Option Text) (c : r.Num) (p : Point r)
      → (colours r (center_words r g s k c) ≡ []) × Joined r p (center_words r g s k c)
  center_words-Joined none k c p = (refl, tt)
  center_words-Joined (some []) k c p = (refl, tt)
  center_words-Joined (some (x ∷ s)) k c p = words_if-Joined k c (r.add c (r.lit 16 0)) p

  slices-Joined :
      (cx cy rim inner total ang : r.Num) (items : List (Item r)) (ps : List (Piece r))
      → ((p : Point r) → (colours r ps ≡ []) × Joined r p ps)
      → (colours r (slices r g cx cy rim inner total ang items ++ ps) ≡ map (λ it. it.color) items)
        × Joined r (on_circle r g cx cy rim ang) (slices r g cx cy rim inner total ang items ++ ps)
  unfolding slices
  slices-Joined cx cy rim inner total ang [] ps h = h (on_circle r g cx cy rim ang)
  slices-Joined cx cy rim inner total ang (it ∷ its) ps h =
      let a2 = r.add ang (r.div (r.mul (r.mul g.pi (r.lit 2 0)) it.value) total) in
      let (c, j) = slices-Joined cx cy rim inner total a2 its ps h in
      (ap (λ xs. it.color ∷ xs) c, (refl, j))

  -- A donut has one slice for each of its items, in their order and colours; the first begins at the
  -- top of the rim, and each of the others where the one before it ended.
  pub donut-Joined :
      (items : List (Item r)) (o : DonutOptions r)
      → (colours r (donut r g items o) ≡ map (λ it. it.color) items)
        × Joined r
            (on_circle r g (middle r g o) (middle r g o) (rim_of r g o) (top_angle r g))
            (donut r g items o)
  unfolding donut
  donut-Joined items o =
      slices-Joined (middle r g o) (middle r g o) (rim_of r g o) _ _ (top_angle r g) items
        (center_words r g o.center o.center_sub (middle r g o))
        (center_words-Joined o.center o.center_sub (middle r g o))

-- ===== src/Cctv/Context.antt =====
-- The drawing context of a canvas, as assets/js/cctv.js calls it: a drawing is the list of its
-- calls and assignments.
use project_sh_fms.Prelude.{ℕ, ◌≡◌, refl, ap, ◌∙◌, sym, List, [], ◌∷◌, ◌++◌, append_assoc, Text}
use project_sh_fms.Number.{Number}

-- What of Math, of the printing of numbers and of the browser the drawings use: `rem` is `%`, `show`
-- is the number in a string, `measure` the width of a text in the font in use, and `pixels` the
-- whole number that a canvas makes of its width or height.
pub record Maths (r : Number) : Type 0 where
  pub pi : r.Num
  pub sin : r.Num → r.Num
  pub pow : r.Num → r.Num → r.Num
  pub rem : r.Num → r.Num → r.Num
  pub show : r.Num → Text
  pub measure : Text → r.Num
  pub pixels : r.Num → ℕ

module _ (r : Number) where
  open r use {Num}

  -- What fillStyle is set to: a colour, or a gradient with its stops.
  pub data Style : Type 0 where
    colour : Text → Style
    linear : Num → Num → Num → Num → List (Num × Text) → Style
    radial : Num → Num → Num → Num → Num → Num → List (Num × Text) → Style

  pub data Command : Type 0 where
    fill_style : Style → Command
    stroke_style font text_baseline : Text → Command
    line_width : Num → Command
    fill_rect stroke_rect : Num → Num → Num → Num → Command
    fill_text : Text → Num → Num → Command
    begin_path stroke fill save restore : Command
    move_to line_to translate : Num → Num → Command
    rotate : Num → Command
    arc : Num → Num → Num → Num → Num → Command
    ellipse : Num → Num → Num → Num → Num → Num → Num → Command

  -- The texts that a drawing writes.
  unfoldable pub texts : List Command → List Text
  texts [] = []
  texts (fill_text s x y ∷ cs) = s ∷ texts cs
  texts (_ ∷ cs) = texts cs

  -- The style of the context, with those that are saved.
  pub record Pen : Type 0 where
    pub style : Style
    pub saved : List Style

  abbrev pub restored : List Style → Pen → Pen
  restored [] p = p
  restored (s ∷ ss) p = record { style = s; saved = ss }

  abbrev pub after : Command → Pen → Pen
  after (fill_style s) p = record p { style = s }
  after save p = record p { saved = p.style ∷ p.saved }
  after restore p = restored p.saved p
  after _ p = p

  unfoldable pub after_all : List Command → Pen → Pen
  after_all [] p = p
  after_all (c ∷ cs) p = after_all cs (after c p)

  -- The styles that one call fills with.
  abbrev pub filled_by : Command → Pen → List Style
  filled_by (fill_rect x y w h) p = p.style ∷ []
  filled_by fill p = p.style ∷ []
  filled_by _ p = []

  -- The styles of the shapes that a drawing fills, in order.
  unfoldable pub filled : List Command → Pen → List Style
  filled [] p = []
  filled (c ∷ cs) p = filled_by c p ++ filled cs (after c p)

  pub texts-append : (xs ys : List Command) → texts (xs ++ ys) ≡ texts xs ++ texts ys
  unfolding texts
  texts-append [] ys = refl
  texts-append (fill_text s x y ∷ xs) ys = ap (λ zs. s ∷ zs) (texts-append xs ys)
  texts-append (fill_style s ∷ xs) ys = texts-append xs ys
  texts-append (stroke_style s ∷ xs) ys = texts-append xs ys
  texts-append (font s ∷ xs) ys = texts-append xs ys
  texts-append (text_baseline s ∷ xs) ys = texts-append xs ys
  texts-append (line_width x ∷ xs) ys = texts-append xs ys
  texts-append (fill_rect x y w h ∷ xs) ys = texts-append xs ys
  texts-append (stroke_rect x y w h ∷ xs) ys = texts-append xs ys
  texts-append (begin_path ∷ xs) ys = texts-append xs ys
  texts-append (stroke ∷ xs) ys = texts-append xs ys
  texts-append (fill ∷ xs) ys = texts-append xs ys
  texts-append (save ∷ xs) ys = texts-append xs ys
  texts-append (restore ∷ xs) ys = texts-append xs ys
  texts-append (move_to x y ∷ xs) ys = texts-append xs ys
  texts-append (line_to x y ∷ xs) ys = texts-append xs ys
  texts-append (translate x y ∷ xs) ys = texts-append xs ys
  texts-append (rotate x ∷ xs) ys = texts-append xs ys
  texts-append (arc x y z a b ∷ xs) ys = texts-append xs ys
  texts-append (ellipse x y u v k a b ∷ xs) ys = texts-append xs ys

  pub after_all-append :
      (xs ys : List Command) (p : Pen) → after_all (xs ++ ys) p ≡ after_all ys (after_all xs p)
  unfolding after_all
  after_all-append [] ys p = refl
  after_all-append (x ∷ xs) ys p = after_all-append xs ys (after x p)

  pub filled-append :
      (xs ys : List Command) (p : Pen)
      → filled (xs ++ ys) p ≡ filled xs p ++ filled ys (after_all xs p)
  unfolding filled after_all
  filled-append [] ys p = refl
  filled-append (x ∷ xs) ys p =
      ap (λ zs. filled_by x p ++ zs) (filled-append xs ys (after x p))
      ∙ sym (
          append_assoc (filled_by x p) (filled xs (after x p))
            (filled ys (after_all xs (after x p))))

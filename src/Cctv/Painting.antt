-- ===== src/Cctv/Painting.antt =====
-- drawScene of assets/js/cctv.js: the picture that stands in for a camera's.
use project_sh_fms.Prelude.{
  ℕ, zero, suc, ◌+◌, ◌/◌, Bool, List, [], ◌∷◌, ◌++◌, Text, codes, if◌then◌else◌,
}
use project_sh_fms.Number.{Number}
use project_sh_fms.Cctv.{Place, tank, line, bench, dock, gate, Scene}
use project_sh_fms.Cctv.Context.{
  Maths, Command, linear, radial, fill_style, stroke_style, line_width, fill_rect, stroke_rect,
  begin_path, stroke, fill, save, restore, move_to, line_to, translate, rotate, arc, ellipse,
}
use project_sh_fms.Cctv.Overlay.{paint}

-- The colours of people and of the vehicle.
abbrev pub person_colour : Text
person_colour = codes "rgba(232,236,242,.72)"

abbrev pub truck_colour : Text
truck_colour = codes "rgba(224,182,88,.62)"

module _ (r : Number) (m : Maths r) (wide high : ℕ) (t : r.Num) where
  open r use {Num, lit, neg, add, sub, mul, div, round, lt}
  open m use {pi, sin, pow, rem, show}

  -- The width and height of the canvas, and the horizon.
  abbrev pub w : Num
  w = lit wide 0

  abbrev pub h : Num
  h = lit high 0

  abbrev pub hz : Num
  hz = mul h (lit 42 2)

  abbrev pub turn : Num
  turn = mul pi (lit 2 0)

  -- `'rgb(' + Math.round(a + light * x) + …`
  abbrev pub shade : ℕ → ℕ → Num → Text
  shade a x light = show (round (add (lit a 0) (mul light (lit x 0))))

  abbrev pub rgb : Text → Text → Text → Text
  rgb a b c = codes "rgb(" ++ (a ++ (codes "," ++ (b ++ (codes "," ++ (c ++ codes ")")))))

  -- Floor and wall.
  abbrev pub backdrop : Num → List (Command r)
  backdrop l =
      fill_style (
        linear (lit 0 0) (lit 0 0) (lit 0 0) h (
          (lit 0 0, rgb (shade 26 26 l) (shade 28 28 l) (shade 32 30 l))
          ∷ (lit 55 2, rgb (shade 38 40 l) (shade 40 42 l) (shade 44 44 l))
          ∷ (lit 1 0, rgb (shade 20 22 l) (shade 21 23 l) (shade 24 24 l))
          ∷ []))
      ∷ fill_rect (lit 0 0) (lit 0 0) w h
      ∷ []

  abbrev pub segment : Num → Num → Num → Num → List (Command r)
  segment x y x' y' = begin_path ∷ move_to x y ∷ line_to x' y' ∷ stroke ∷ []

  abbrev pub floor_line : Num → List (Command r)
  floor_line i =
      segment (add (div w (lit 2 0)) (mul (mul i w) (lit 8 2))) hz
        (add (div w (lit 2 0)) (mul (mul i w) (lit 42 2))) h

  abbrev pub depth_line : ℕ → List (Command r)
  depth_line j =
      let y = add hz (mul (sub h hz) (pow (div (lit j 0) (lit 4 0)) (lit 17 1))) in
      segment (lit 0 0) y w y

  abbrev pub floor_lines : List (Command r)
  floor_lines =
      stroke_style (codes "rgba(255,255,255,.055)")
      ∷ line_width (lit 1 0)
      ∷ (floor_line (neg (lit 3 0))
          ++ (floor_line (neg (lit 2 0))
              ++ (floor_line (neg (lit 1 0))
                  ++ (floor_line (lit 0 0)
                      ++ (floor_line (lit 1 0)
                          ++ (floor_line (lit 2 0)
                              ++ (floor_line (lit 3 0)
                                  ++ (depth_line 1
                                      ++ (depth_line 2
                                          ++ (depth_line 3
                                              ++ (depth_line 4
                                                  ++ (stroke_style (codes "rgba(255,255,255,.1)")
                                                      ∷ segment (lit 0 0) hz w hz))))))))))))

  -- A filled rectangle with its outline.
  abbrev pub box : Num → Num → Num → Num → List (Command r)
  box x y a b = fill_rect x y a b ∷ stroke_rect x y a b ∷ []

  abbrev pub one_tank : Num → ℕ → List (Command r)
  one_tank x k =
      let cx = mul w x in
      let cw = mul w (sub (lit 11 2) (mul (lit k 0) (lit 12 3))) in
      let ch = mul h (add (lit 34 2) (mul (lit k 0) (lit 3 2))) in
      let y = sub hz (mul ch (lit 35 2)) in
      box (sub cx (div cw (lit 2 0))) y cw ch
      ++ (begin_path
          ∷ ellipse cx y (div cw (lit 2 0)) (mul cw (lit 16 2)) (lit 0 0) (lit 0 0) turn
          ∷ stroke
          ∷ [])

  -- A product on the conveyor.
  abbrev pub product : ℕ → List (Command r)
  product p =
      let px =
        mul (sub (rem (add (mul t (lit 35 3)) (mul (lit p 0) (lit 19 2))) (lit 11 1)) (lit 5 2))
          w in
      paint r m (codes "rgba(255,255,255,.2)")
      ∷ fill_rect px (add hz (mul h (lit 125 3))) (mul w (lit 35 3)) (mul h (lit 3 2))
      ∷ []

  abbrev pub one_bench : Num → List (Command r)
  one_bench x =
      box (sub (mul w x) (mul w (lit 4 2))) (sub hz (mul h (lit 4 2))) (mul w (lit 8 2))
        (mul h (lit 22 2))

  abbrev pub shutter : ℕ → List (Command r)
  shutter d =
      box (mul w (add (lit 8 2) (mul (lit d 0) (lit 3 1)))) (sub hz (mul h (lit 28 2)))
        (mul w (lit 22 2)) (mul h (lit 32 2))

  -- What stands in the place. `steam` is the colour of the lamp over a line.
  abbrev pub structures : Place → Bool → List (Command r)
  structures tank steam =
      one_tank (lit 2 1) 0
      ++ (one_tank (lit 46 2) 1
          ++ (one_tank (lit 74 2) 2
              ++ segment (lit 0 0) (sub hz (mul h (lit 22 2))) w (sub hz (mul h (lit 22 2)))))
  structures line steam =
      box (mul w (lit 6 2)) (add hz (mul h (lit 14 2))) (mul w (lit 88 2)) (mul h (lit 7 2))
      ++ (product 0
          ++ (product 1
              ++ (product 2
                  ++ (product 3
                      ++ (product 4
                          ++ (product 5
                              ++ (paint r m (codes "rgba(255,255,255,.085)")
                                  ∷ (box (mul w (lit 3 1)) (sub hz (mul h (lit 3 1)))
                                        (mul w (lit 4 1)) (mul h (lit 34 2))
                                      ++ (paint r m (
                                            if steam
                                            then codes "rgba(214,72,60,.85)"
                                            else codes "rgba(79,158,99,.8)")
                                          ∷ fill_rect (mul w (lit 49 2)) (sub hz (mul h (lit 36 2)))
                                              (mul w (lit 18 3)) (mul h (lit 5 2))
                                          ∷ [])))))))))
  structures bench steam =
      box (mul w (lit 1 1)) (add hz (mul h (lit 2 1))) (mul w (lit 8 1)) (mul h (lit 1 1))
      ++ (one_bench (lit 25 2) ++ (one_bench (lit 5 1) ++ one_bench (lit 75 2)))
  structures dock steam =
      shutter 0
      ++ (shutter 1
          ++ (shutter 2
              ++ (paint r m (codes "rgba(255,255,255,.14)")
                  ∷ fill_rect (mul w (lit 2 1)) (add hz (mul h (lit 3 1))) (mul w (lit 12 2))
                      (mul h (lit 1 1))
                  ∷ fill_rect (mul w (lit 42 2)) (add hz (mul h (lit 33 2))) (mul w (lit 12 2))
                      (mul h (lit 1 1))
                  ∷ [])))
  structures gate steam =
      box (mul w (lit 2 2)) (sub hz (mul h (lit 2 1))) (mul w (lit 1 1)) (mul h (lit 28 2))
      ++ (save
          ∷ translate (mul w (lit 12 2)) (add hz (mul h (lit 2 2)))
          ∷ rotate (if lt (lit 6 1) (sin (mul t (lit 4 1))) then neg (lit 5 1) else lit 0 0)
          ∷ paint r m (codes "rgba(255,255,255,.3)")
          ∷ fill_rect (lit 0 0) (mul (neg h) (lit 12 3)) (mul w (lit 34 2)) (mul h (lit 24 3))
          ∷ restore
          ∷ [])

  -- The styles that the structures begin with, and what stands in the place.
  abbrev pub standing : Place → Bool → List (Command r)
  standing place steam =
      paint r m (codes "rgba(255,255,255,.085)")
      ∷ stroke_style (codes "rgba(255,255,255,.14)")
      ∷ structures place steam

  -- The `k`th person, head and body.
  abbrev pub person : ℕ → List (Command r)
  person k =
      let ph = add (mul t (lit 22 2)) (mul (lit k 0) (lit 21 1)) in
      let x = mul w (add (lit 18 2) (mul (lit 62 2) (add (lit 5 1) (mul (lit 5 1) (sin ph))))) in
      let depth = add (lit 5 1) (mul (lit 5 1) (sin (add (mul ph (lit 7 1)) (lit k 0)))) in
      let y = add hz (mul (sub h hz) (add (lit 18 2) (mul depth (lit 5 1)))) in
      let s = mul h (add (lit 1 1) (mul depth (lit 1 1))) in
      paint r m person_colour
      ∷ begin_path
      ∷ arc x (sub y s) (mul s (lit 2 1)) (lit 0 0) turn
      ∷ fill
      ∷ fill_rect (sub x (mul s (lit 16 2))) (sub y (mul s (lit 8 1))) (mul s (lit 32 2))
          (mul s (lit 8 1))
      ∷ []

  -- The loop over the people, with `n` turns left.
  unfoldable pub people_from : ℕ → ℕ → List (Command r)
  people_from k zero = []
  people_from k (suc n) = person k ++ people_from (k + 1) n

  abbrev pub vehicle : List (Command r)
  vehicle =
      let tx = mul (sub (rem (mul t (lit 6 2)) (lit 13 1)) (lit 15 2)) w in
      paint r m truck_colour
      ∷ fill_rect tx (add hz (mul h (lit 28 2))) (mul w (lit 16 2)) (mul h (lit 16 2))
      ∷ paint r m (codes "rgba(0,0,0,.45)")
      ∷ fill_rect (add tx (mul w (lit 2 2))) (add hz (mul h (lit 44 2))) (mul w (lit 35 3))
          (mul h (lit 35 3))
      ∷ fill_rect (add tx (mul w (lit 105 3))) (add hz (mul h (lit 44 2))) (mul w (lit 35 3))
          (mul h (lit 35 3))
      ∷ []

  -- A puff of steam.
  abbrev pub puff : ℕ → List (Command r)
  puff k =
      let sy =
        sub (sub hz (mul h (lit 3 1)))
          (rem (add (mul t (lit 18 0)) (mul (lit k 0) (lit 34 0))) (lit 90 0)) in
      paint r m
        (codes "rgba(255,255,255," ++ (show (sub (lit 5 2) (mul (lit k 0) (lit 7 3))) ++ codes ")"))
      ∷ begin_path
      ∷ arc (add (mul w (lit 5 1)) (mul (sin (add t (lit k 0))) (lit 12 0))) sy
          (add (lit 16 0) (mul (lit k 0) (lit 6 0))) (lit 0 0) turn
      ∷ fill
      ∷ []

  abbrev pub vignette : List (Command r)
  vignette =
      fill_style (
        radial (div w (lit 2 0)) (div h (lit 2 0)) (mul h (lit 25 2)) (div w (lit 2 0))
          (div h (lit 2 0)) (mul h (lit 85 2))
          ((lit 0 0, codes "rgba(0,0,0,0)") ∷ (lit 1 0, codes "rgba(0,0,0,.55)") ∷ []))
      ∷ fill_rect (lit 0 0) (lit 0 0) w h
      ∷ paint r m (codes "rgba(255,255,255,.028)")
      ∷ []

  -- The loop of the noise, with `n` turns left; the generator of the browser gives the numbers.
  unfoldable pub noise : (ℕ → Num) → ℕ → ℕ → List (Command r)
  noise random k zero = []
  noise random k (suc n) =
      fill_rect (mul (random k) w) (mul (random (k + 1)) h) (lit 1 0) (lit 1 0)
      ∷ noise random (k + 2) n

  -- The loop of the interlaced lines from `y` on, with `n` turns left.
  unfoldable pub interlace : ℕ → ℕ → List (Command r)
  interlace y zero = []
  interlace y (suc n) = fill_rect (lit 0 0) (lit y 0) w (lit 1 0) ∷ interlace (y + 3) n

  -- The vignette, the noise and the interlaced lines, a third of the lines of the canvas rounded up.
  abbrev pub finish : (ℕ → Num) → List (Command r)
  finish random =
      vignette
      ++ (noise random 0 90 ++ (paint r m (codes "rgba(0,0,0,.08)") ∷ interlace 0 ((high + 2) / 3)))

  -- drawScene
  unfoldable pub draw_scene : (ℕ → Num) → Scene r → List (Command r)
  draw_scene random sc =
      backdrop sc.light
      ++ (floor_lines
          ++ (standing sc.place sc.steam
              ++ (people_from 0 sc.people
                  ++ ((if sc.truck then vehicle else [])
                      ++ ((if sc.steam
                            then puff 0 ++ (puff 1 ++ (puff 2 ++ (puff 3 ++ puff 4)))
                            else [])
                          ++ finish random)))))

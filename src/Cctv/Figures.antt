-- ===== src/Cctv/Figures.antt =====
-- The figures that drawScene of assets/js/cctv.js paints, counted by their colours.
use native.Mathlib.Nat.{suc-mul}
use project_sh_fms.Prelude.{
  ℕ, zero, suc, ◌+◌, ◌*◌, ◌/◌, ◌≡◌, refl, ap, ap₂, ◌∙◌, Bool, true, false, List, [], ◌∷◌, ◌++◌,
  Text, codes, if◌then◌else◌, text_eq, tally, arith, subst,
}
use project_sh_fms.Number.{Number}
use project_sh_fms.Cctv.{Place, tank, line, bench, dock, gate, Scene}
use project_sh_fms.Cctv.Context.{
  Maths, Command, fill_style, fill_rect, Style, colour, Pen, texts, texts-append, filled,
  filled-append, after_all, after_all-append,
}
use project_sh_fms.Cctv.Overlay.{paint}
use project_sh_fms.Cctv.Painting.{
  draw_scene, backdrop, floor_lines, standing, people_from, person, person_colour, vehicle,
  truck_colour, puff, noise, interlace, finish,
}

module _ (r : Number) (m : Maths r) where
  -- Is this the style?
  abbrev pub is_colour : Text → Style r → Bool
  is_colour c (colour s) = text_eq s c
  is_colour c _ = false

  -- How many shapes a drawing fills with a colour.
  abbrev pub painted : Text → List (Command r) → Pen r → ℕ
  painted c cs p = tally (is_colour c) (filled r cs p)

  -- A part of a scene, whatever the pen before it: how many of its shapes have the colours of people
  -- and of vehicles, that it writes nothing, and that it leaves the saved styles as they were.
  pub record Part (cs : List (Command r)) (n k : ℕ) : Type 0 where
    pub people : (p : Pen r) → painted person_colour cs p ≡ n
    pub trucks : (p : Pen r) → painted truck_colour cs p ≡ k
    pub silent : texts r cs ≡ []
    pub saved : (p : Pen r) → (after_all r cs p).saved ≡ p.saved

  tally-append :
      (c : Style r → Bool) (xs ys : List (Style r)) → tally c (xs ++ ys) ≡ tally c xs + tally c ys
  tally-append c [] ys = omega arith
  tally-append c (x ∷ xs) ys = let h = tally-append c xs ys in ground arith

  pub painted-append :
      (c : Text) (xs ys : List (Command r)) (p : Pen r)
      → painted c (xs ++ ys) p ≡ painted c xs p + painted c ys (after_all r xs p)
  painted-append c xs ys p =
      ap (tally (is_colour c)) (filled-append r xs ys p)
      ∙ tally-append (is_colour c) (filled r xs p) (filled r ys (after_all r xs p))

  append-Part :
      {a b a' b' : ℕ} (xs ys : List (Command r))
      → Part xs a b
      → Part ys a' b'
      → Part (xs ++ ys) (a + a') (b + b')
  append-Part xs ys h k = record {
    people = λ p.
        painted-append person_colour xs ys p ∙ ap₂ ◌+◌ (h.people p) (k.people (after_all r xs p));
    trucks = λ p.
        painted-append truck_colour xs ys p ∙ ap₂ ◌+◌ (h.trucks p) (k.trucks (after_all r xs p));
    silent = texts-append r xs ys ∙ ap₂ ◌++◌ h.silent k.silent;
    saved = λ p.
        ap (λ q. q.saved) (after_all-append r xs ys p) ∙ k.saved (after_all r xs p) ∙ h.saved p;
  }

  part :
      {cs : List (Command r)} {n k : ℕ}
      → ((p : Pen r)
          → (painted person_colour cs p ≡ n)
            × (painted truck_colour cs p ≡ k)
            × ((after_all r cs p).saved ≡ p.saved))
      → texts r cs ≡ []
      → Part cs n k
  part h e = record {
    people = λ p. (h p).0;
    trucks = λ p. (h p).1;
    silent = e;
    saved = λ p. (h p).2;
  }

  nil-Part : Part [] 0 0
  unfolding filled texts after_all
  nil-Part = part (λ p. (refl, refl, refl)) refl

  module _ (wide high : ℕ) (t : r.Num) where
    backdrop-Part : (l : r.Num) → Part (backdrop r m wide high t l) 0 0
    unfolding filled texts after_all text_eq
    backdrop-Part l = part (λ p. (refl, refl, refl)) refl

    floor_lines-Part : Part (floor_lines r m wide high t) 0 0
    unfolding filled texts after_all text_eq
    floor_lines-Part = part (λ p. (refl, refl, refl)) refl

    standing-Part : (k : Place) (b : Bool) → Part (standing r m wide high t k b) 0 0
    unfolding filled texts after_all text_eq
    standing-Part tank b = part (λ p. (refl, refl, refl)) refl
    standing-Part line true = part (λ p. (refl, refl, refl)) refl
    standing-Part line false = part (λ p. (refl, refl, refl)) refl
    standing-Part bench b = part (λ p. (refl, refl, refl)) refl
    standing-Part dock b = part (λ p. (refl, refl, refl)) refl
    standing-Part gate b = part (λ p. (refl, refl, refl)) refl

    vehicle-Part : Part (vehicle r m wide high t) 0 1
    unfolding filled texts after_all text_eq
    vehicle-Part = part (λ p. (refl, refl, refl)) refl

    puff-Part : (k : ℕ) → Part (puff r m wide high t k) 0 0
    unfolding filled texts after_all text_eq
    puff-Part k = part (λ p. (refl, refl, refl)) refl

    person-Part : (k : ℕ) → Part (person r m wide high t k) 2 0
    unfolding filled texts after_all text_eq
    person-Part k = part (λ p. (refl, refl, refl)) refl

    people_from-Part : (k n : ℕ) → Part (people_from r m wide high t k n) (n * 2) 0
    unfolding people_from
    people_from-Part k zero = nil-Part
    people_from-Part k (suc n) =
        subst (λ a. Part (people_from r m wide high t k (suc n)) a 0) (omega (arith, suc-mul n 2))
          (append-Part (person r m wide high t k) (people_from r m wide high t (k + 1) n)
            (person-Part k) (people_from-Part (k + 1) n))

    -- What the noise and the interlaced lines do, dot by dot, with the style that they find.
    abbrev Plain : List (Command r) → Type 0
    Plain cs =
        ((c : Text) (p : Pen r) → is_colour c p.style ≡ false → painted c cs p ≡ 0)
        × ((p : Pen r) → after_all r cs p ≡ p)
        × (texts r cs ≡ [])

    noise-Plain : (random : ℕ → r.Num) (k n : ℕ) → Plain (noise r m wide high t random k n)
    unfolding noise filled texts after_all
    noise-Plain random k zero = (λ c p h. refl, λ p. refl, refl)
    noise-Plain random k (suc n) =
        let (a, b, c) = noise-Plain random (k + 2) n in (λ c p h. rw h (a c p h), b, c)

    interlace-Plain : (y n : ℕ) → Plain (interlace r m wide high t y n)
    unfolding interlace filled texts after_all
    interlace-Plain y zero = (λ c p h. refl, λ p. refl, refl)
    interlace-Plain y (suc n) =
        let (a, b, c) = interlace-Plain (y + 3) n in (λ c p h. rw h (a c p h), b, c)

    -- A style and shapes that are filled with it.
    styled-Part :
        (x : Text) (cs : List (Command r))
        → text_eq x person_colour ≡ false
        → text_eq x truck_colour ≡ false
        → Plain cs
        → Part (paint r m x ∷ cs) 0 0
    unfolding filled texts after_all
    styled-Part x cs h k (a, b, c) = record {
      people = λ p. a person_colour (record p { style = colour x }) h;
      trucks = λ p. a truck_colour (record p { style = colour x }) k;
      silent = c;
      saved = λ p. ap (λ q. q.saved) (b (record p { style = colour x }));
    }

    if-Part :
        (b : Bool) {n k : ℕ} (cs : List (Command r))
        → Part cs n k
        → Part (if b then cs else []) (if b then n else 0) (if b then k else 0)
    if-Part true cs h = h
    if-Part false cs h = nil-Part

    blank-Part :
        (s : Style r) (x y a b : r.Num)
        → is_colour person_colour s ≡ false
        → is_colour truck_colour s ≡ false
        → Part (fill_style s ∷ fill_rect x y a b ∷ []) 0 0
    unfolding filled texts after_all
    blank-Part s x y a b h k = record {
      people = λ p. rw h refl;
      trucks = λ p. rw k refl;
      silent = refl;
      saved = λ p. refl;
    }

    finish-Part : (random : ℕ → r.Num) → Part (finish r m wide high t random) 0 0
    unfolding text_eq
    finish-Part random = append-Part _ _ (blank-Part _ _ _ _ _ refl refl) (
        append-Part _ _
          (styled-Part (codes "rgba(255,255,255,.028)") _ refl refl (noise-Plain random 0 90))
          (styled-Part (codes "rgba(0,0,0,.08)") _ refl refl (interlace-Plain 0 ((high + 2) / 3))))

    pub draw_scene-Part :
        (random : ℕ → r.Num) (sc : Scene r)
        → Part (draw_scene r m wide high t random sc) (sc.people * 2) (if sc.truck then 1 else 0)
    unfolding draw_scene
    draw_scene-Part random sc =
        let steam : Part
            (puff r m wide high t 0
              ++ (puff r m wide high t 1
                  ++ (puff r m wide high t 2
                      ++ (puff r m wide high t 3 ++ puff r m wide high t 4))))
            0 0 =
          append-Part _ _ (puff-Part 0) (
            append-Part _ _ (puff-Part 1)
              (append-Part _ _ (puff-Part 2) (append-Part _ _ (puff-Part 3) (puff-Part 4)))) in
        let whole = append-Part _ _ (backdrop-Part sc.light) (
          append-Part _ _ floor_lines-Part (
            append-Part _ _ (standing-Part sc.place sc.steam) (
              append-Part _ _ (people_from-Part 0 sc.people) (
                append-Part _ _ (if-Part sc.truck _ vehicle-Part)
                  (append-Part _ _ (if-Part sc.steam _ steam) (finish-Part random)))))) in
        record {
          people = λ p. whole.people p ∙ ground arith;
          trucks = λ p. whole.trucks p ∙ ground arith;
          silent = whole.silent;
          saved = whole.saved;
        }

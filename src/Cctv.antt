-- ===== src/Cctv.antt =====
-- assets/js/cctv.js: the views of the cameras and the loop that draws them, frame by frame, with which
-- canvases it draws, and as what. What it paints there is Painting and Overlay.
pub mod Context
pub mod Overlay
pub mod Painting
pub mod Figures
pub mod Words
pub mod Pictures
pub mod Frames
use project_sh_fms.Prelude.{
  ℕ, zero, suc, ◌+◌, Bool, true, false, not, ◌&&◌, ◌||◌, List, [], ◌∷◌, ◌++◌, Text, codes,
  if◌then◌else◌, ◌==◌, text_eq, select,
}
use project_sh_fms.Number.{Number}
use project_sh_fms.Mock.Cameras.{Camera}

-- `kind` of a scene.
pub data Place : Type 0 where
  tank line bench dock gate : Place

module _ (r : Number) where
  open r use {Num, lit, mul, div, round, max}

  pub record Scene : Type 0 where
    pub place : Place
    pub people : ℕ
    pub light : Num
    pub steam : Bool
    pub truck : Bool

  abbrev pub scene : Place → ℕ → ℕ → Bool → Bool → Scene
  scene k n x s t = record { place = k; people = n; light = lit x 2; steam = s; truck = t }

  -- SCENES['CAM-01'] and the rest of SCENES
  abbrev pub first_scene : Scene
  first_scene = scene tank 2 42 false false

  abbrev pub scenes : List (Text × Scene)
  scenes =
      (codes "CAM-01", first_scene)
      ∷ (codes "CAM-02", scene tank 1 38 false false)
      ∷ (codes "CAM-03", scene line 2 46 false false)
      ∷ (codes "CAM-04", scene line 0 30 true false)
      ∷ (codes "CAM-05", scene line 1 34 false false)
      ∷ (codes "CAM-06", scene line 3 48 false false)
      ∷ (codes "CAM-07", scene bench 2 52 false false)
      ∷ (codes "CAM-08", scene dock 2 44 false true)
      ∷ (codes "CAM-09", scene gate 0 36 false true)
      ∷ (codes "CAM-10", scene tank 0 28 false false)
      ∷ (codes "CAM-11", scene tank 0 24 false false)
      ∷ (codes "CAM-12", scene gate 0 26 false false)
      ∷ []

  -- `SCENES[id] || SCENES['CAM-01']`. No camera has the name of a property of all objects.
  unfoldable pub scene_in : Text → List (Text × Scene) → Scene
  scene_in id [] = first_scene
  scene_in id ((k, s) ∷ xs) = let rest = scene_in id xs in if text_eq k id then s else rest

  -- A canvas, with the number that tells it from the others, and the container it was made for.
  pub record Canvas : Type 0 where
    pub number : ℕ
    pub host : ℕ
    pub width : Num
    pub height : Num

  pub record View : Type 0 where
    pub canvas : Canvas
    pub cam : Camera
    pub scene : Scene

  -- The viewer: its two variables, the calls of `loop` that the browser has been asked for, the
  -- number of canvases made, and the canvases that each container holds, in their order.
  pub record Viewer : Type 0 where
    pub views : List View
    pub running : Bool
    pub pending : ℕ
    pub made : ℕ
    pub shown : ℕ → List ℕ

  unfoldable pub new_viewer : Viewer
  new_viewer = record { views = []; running = false; pending = 0; made = 0; shown = λ h. [] }

  -- The canvas that attach makes in a container of that width.
  abbrev pub canvas_of : ℕ → ℕ → Num → Canvas
  canvas_of number host width = record {
    number = number;
    host = host;
    width = max (lit 160 0) (round width);
    height = max (lit 90 0) (round (div (mul width (lit 9 0)) (lit 16 0)));
  }

  -- `host.innerHTML = ''`
  unfoldable pub emptied : ℕ → (ℕ → List ℕ) → ℕ → List ℕ
  emptied host shown h = if h == host then [] else shown h

  -- `host.appendChild(c)`
  unfoldable pub appended : ℕ → ℕ → (ℕ → List ℕ) → ℕ → List ℕ
  appended host number shown h = if h == host then shown h ++ number ∷ [] else shown h

  unfoldable pub attach : ℕ → Num → Camera → Viewer → Viewer
  unfolding scene_in emptied appended
  attach host width cam v = record {
    views =
        v.views
        ++ record {
          canvas = canvas_of v.made host width;
          cam = cam;
          scene = scene_in cam.id scenes;
        }
          ∷ [];
    running = true;
    pending = if not v.running then v.pending + 1 else v.pending;
    made = v.made + 1;
    shown = appended host v.made (emptied host v.shown);
  }

  unfoldable pub clear : Viewer → Viewer
  clear v = record v { views = [] }

  abbrev pub is_held : List ℕ → ℕ → Bool
  is_held [] number = false
  is_held (m ∷ ms) number = m == number || is_held ms number

  -- `v.canvas.isConnected`: the container still holds the canvas and is itself in the page.
  abbrev pub is_connected : (ℕ → Bool) → (ℕ → List ℕ) → View → Bool
  is_connected in_page shown w =
      in_page w.canvas.host && is_held (shown w.canvas.host) w.canvas.number

  -- The views that a call of `loop` draws.
  unfoldable pub drawn : (ℕ → Bool) → Viewer → List View
  drawn in_page v = select (is_connected in_page v.shown) v.views

  abbrev pub called : ℕ → (ℕ → Bool) → Viewer → Viewer × List View
  called zero in_page v = (v, [])
  called (suc n) in_page v = (record v { pending = n + 1 }, drawn in_page v)

  -- The browser's next call of `loop`, if it has been asked for one. The call asks for another.
  unfoldable pub loop : (ℕ → Bool) → Viewer → Viewer × List View
  loop in_page v = called v.pending in_page v

-- What happens to the viewer: a container of a page gets a camera, a page clears the viewer, or
-- the browser makes the next frame, with the containers that are in the page then.
pub data Happening (r : Number) : Type 0 where
  attaching : ℕ → r.Num → Camera → Happening r
  clearing : Happening r
  framing : (ℕ → Bool) → Happening r

module _ (r : Number) where
  unfoldable pub happen : Happening r → Viewer r → Viewer r × List (View r)
  happen (attaching host width cam) v = (attach r host width cam v, [])
  happen clearing v = (clear r v, [])
  happen (framing in_page) v = loop r in_page v

  unfoldable pub happen_all : List (Happening r) → Viewer r → Viewer r
  happen_all [] v = v
  happen_all (h ∷ hs) v = happen_all hs (happen h v).0

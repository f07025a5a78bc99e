-- ===== src/Cctv/Pictures.antt =====
-- What a frame of assets/js/cctv.js paints on each canvas, and what can be read and seen there.
use project_sh_fms.Prelude.{ℕ, ◌+◌, ◌*◌, ◌≡◌, ap₂, ◌∙◌, List, ◌++◌, if◌then◌else◌, arith}
use project_sh_fms.Number.{Number}
use project_sh_fms.Mock.Format.{Date}
use project_sh_fms.Cctv.{View}
use project_sh_fms.Cctv.Context.{Maths, Command, Pen, texts, texts-append, after_all}
use project_sh_fms.Cctv.Overlay.{draw_osd}
use project_sh_fms.Cctv.Painting.{draw_scene, person_colour, truck_colour}
use project_sh_fms.Cctv.Figures.{painted, painted-append, draw_scene-Part}
use project_sh_fms.Cctv.Words.{told, texts-draw_osd, draw_osd-Clear}

module _ (r : Number) (m : Maths r) where
  -- What `loop` paints on the canvas of one view.
  unfoldable pub picture : (ℕ → r.Num) → r.Num → Date → View r → List (Command r)
  picture random t d v =
      let wide = m.pixels v.canvas.width in
      let high = m.pixels v.canvas.height in
      draw_scene r m wide high t random v.scene
      ++ draw_osd r m (r.lit wide 0) (r.lit high 0) v.cam t d

  -- Whatever the instant, the random numbers and the styles before it, the picture of a view says the
  -- id and name of its camera, REC if it records, the date and time, the stream, and what it is
  -- analysed for, if it is, and nothing else; two shapes have the colour of people for each of the
  -- people of the view's scene, and one has the colour of vehicles if the scene has one, else none.
  pub picture_shows :
      (random : ℕ → r.Num) (t : r.Num) (d : Date) (v : View r) (p : Pen r)
      → let cs = picture random t d v in
        (texts r cs ≡ told r m v.cam d)
        × (painted r m person_colour cs p ≡ v.scene.people * 2)
        × (painted r m truck_colour cs p ≡ (if v.scene.truck then 1 else 0))
  unfolding picture
  picture_shows random t d v p =
      let wide = m.pixels v.canvas.width in
      let high = m.pixels v.canvas.height in
      let xs = draw_scene r m wide high t random v.scene in
      let ys = draw_osd r m (r.lit wide 0) (r.lit high 0) v.cam t d in
      let scene = draw_scene-Part r m wide high t random v.scene in
      let over = draw_osd-Clear r m (r.lit wide 0) (r.lit high 0) t v.cam d in
      (
        texts-append r xs ys
            ∙ ap₂ ◌++◌ scene.silent (texts-draw_osd r m (r.lit wide 0) (r.lit high 0) t v.cam d),
        painted-append r m person_colour xs ys p
            ∙ ap₂ ◌+◌ (scene.people p) (over.people (after_all r xs p))
            ∙ omega arith,
        painted-append r m truck_colour xs ys p
            ∙ ap₂ ◌+◌ (scene.trucks p) (over.trucks (after_all r xs p))
            ∙ ground arith,
      )

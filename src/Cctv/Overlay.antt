-- ===== src/Cctv/Overlay.antt =====
-- drawOsd of assets/js/cctv.js: what is written over the picture of a camera.
use project_sh_fms.Prelude.{
  Bool, false, not, ◌&&◌, ◌||◌, List, [], ◌∷◌, ◌++◌, Text, codes, if◌then◌else◌, text_eq,
}
use project_sh_fms.Number.{Number}
use project_sh_fms.Mock.Format.{Date, ymd, hms}
use project_sh_fms.Mock.Cameras.{Camera}
use project_sh_fms.Cctv.Context.{
  Maths, Command, colour, fill_style, stroke_style, font, text_baseline, line_width, fill_rect,
  stroke_rect, fill_text, begin_path, arc, fill,
}

module _ (r : Number) (m : Maths r) where
  open r use {Num, lit, add, sub, mul, floor, le}
  open m use {pi, sin, rem, measure}

  -- `cam.ai && cam.ai !== '-'`
  abbrev pub is_analysed : Text → Bool
  is_analysed [] = false
  is_analysed (c ∷ s) = not (text_eq (c ∷ s) (codes "-"))

  -- `hot`
  abbrev pub is_hot : Text → Bool
  is_hot ai = text_eq ai (codes "위험구역 진입") || text_eq ai (codes "침입감지")

  abbrev pub paint : Text → Command r
  paint c = fill_style (colour c)

  -- The id and the name of the camera.
  abbrev pub title : Camera → Text
  title cam = cam.id ++ (codes "  " ++ cam.name)

  abbrev pub title_bar : Camera → List (Command r)
  title_bar cam =
      paint (codes "rgba(0,0,0,.45)")
      ∷ fill_rect (lit 4 0) (lit 4 0) (add (measure (title cam)) (lit 10 0)) (lit 14 0)
      ∷ paint (codes "#dfe5ec")
      ∷ fill_text (title cam) (lit 9 0) (lit 6 0)
      ∷ []

  -- `blink`
  abbrev pub is_blinking : Num → Bool
  is_blinking t =
      let x = rem (floor (mul t (lit 12 1))) (lit 2 0) in le x (lit 0 0) && le (lit 0 0) x

  abbrev pub rec_mark : Num → Num → List (Command r)
  rec_mark w t =
      paint (if is_blinking t then codes "#d6483c" else codes "rgba(214,72,60,.35)")
      ∷ begin_path
      ∷ arc (sub w (lit 30 0)) (lit 11 0) (lit 4 0) (lit 0 0) (mul pi (lit 2 0))
      ∷ fill
      ∷ paint (codes "#dfe5ec")
      ∷ fill_text (codes "REC") (sub w (lit 23 0)) (lit 6 0)
      ∷ []

  abbrev pub time_bar : Num → Date → List (Command r)
  time_bar h d =
      let ts = ymd d ++ (codes " " ++ hms d) in
      paint (codes "rgba(0,0,0,.45)")
      ∷ fill_rect (lit 4 0) (sub h (lit 18 0)) (add (measure ts) (lit 10 0)) (lit 14 0)
      ∷ paint (codes "#dfe5ec")
      ∷ fill_text ts (lit 9 0) (sub h (lit 16 0))
      ∷ []

  -- `meta`
  abbrev pub stream_text : Text
  stream_text = codes "1920x1080 · 15fps · H.265"

  abbrev pub stream_note : Num → Num → List (Command r)
  stream_note w h =
      paint (codes "rgba(223,229,236,.55)")
      ∷ fill_text stream_text (sub (sub w (measure stream_text)) (lit 6 0)) (sub h (lit 16 0))
      ∷ []

  abbrev pub analysis_box : Num → Num → Text → Num → List (Command r)
  analysis_box w h ai t =
      let bx = mul w (add (lit 32 2) (mul (lit 1 1) (sin (mul t (lit 5 1))))) in
      let by = mul h (lit 5 1) in
      stroke_style (if is_hot ai then codes "rgba(214,72,60,.9)" else codes "rgba(74,134,216,.75)")
      ∷ line_width (lit 14 1)
      ∷ stroke_rect bx by (mul w (lit 2 1)) (mul h (lit 32 2))
      ∷ paint (if is_hot ai then codes "rgba(214,72,60,.9)" else codes "rgba(74,134,216,.8)")
      ∷ fill_rect bx (sub by (lit 13 0)) (add (measure ai) (lit 8 0)) (lit 13 0)
      ∷ paint (codes "#fff")
      ∷ fill_text ai (add bx (lit 4 0)) (sub by (lit 12 0))
      ∷ []

  -- drawOsd, at the local time `d`.
  unfoldable pub draw_osd : Num → Num → Camera → Num → Date → List (Command r)
  draw_osd w h cam t d =
      font (codes "10px Consolas, monospace")
      ∷ text_baseline (codes "top")
      ∷ (title_bar cam
          ++ ((if cam.rec then rec_mark w t else [])
              ++ (time_bar h d
                  ++ (stream_note w h
                      ++ (if is_analysed cam.ai then analysis_box w h cam.ai t else [])))))

-- ===== src/Examples/Video.antt =====
-- The video page with an area chosen and a sequence started, and the picture of one camera.
use project_sh_fms.Prelude.{
  ℕ, ◌*◌, ◌≡◌, refl, ◌&&◌, List, [], ◌∷◌, some, codes, text_eq, map, Memᴰ, All, first,
}
use project_sh_fms.Auth.{can_operate}
use project_sh_fms.Mock.Format.{Date}
use project_sh_fms.Mock.Cameras.{Camera, cams}
use project_sh_fms.Js.Decimal.{decimal}
use project_sh_fms.Cctv.{View, drawn, canvas_of, scene_in, scenes}
use project_sh_fms.Cctv.Context.{Maths, Pen, colour, texts}
use project_sh_fms.Cctv.Painting.{person_colour, truck_colour}
use project_sh_fms.Cctv.Figures.{painted}
use project_sh_fms.Cctv.Words.{told}
use project_sh_fms.Cctv.Pictures.{picture, picture_shows}
use project_sh_fms.CctvPage.{
  filtered, has_id, shown, Event, set_layout, set_area, double_click, click_sequence, tick,
  click_zoom, zoom_in, click_tile, click_move, click_timeline, click_alert, Page, draw_wall,
  handle_all, start_page, open_page,
}
use project_sh_fms.CctvPage.Wall.{in_wall, wall_drawn}
use project_sh_fms.CctvPage.Visits.{IsOffered, Tells, visit_runs}
use project_sh_fms.Examples.Thousandths.{thousandths}
use project_sh_fms.Examples.Json.{platform}
use project_sh_fms.Examples.Session.{operator_tab}
use project_sh_fms.Examples.Screens.{gate_camera}

abbrev maths : Maths thousandths
maths = record {
  pi = 3142;
  sin = λ x. 500;
  pow = λ x y. x;
  rem = λ x y. 0;
  show = decimal;
  measure = λ s. 60000;
  pixels = λ x. 320;
}

abbrev wide : ℕ → ℕ
wide h = 320000

-- The page with the cameras of one building chosen.
abbrev one_building : Page thousandths
one_building = record (start_page thousandths platform wide operator_tab) {
  area = codes "B동";
  layout = 1;
}

wall_drawn_example :
    (ys : List Camera) × (q : Page thousandths) × (shown 1
        (codes "CAM-06")
        (filtered (codes "B동") (codes ""))
      ≡ some ys)
    × (draw_wall thousandths wide one_building ≡ some q)
    × (map (λ v. v.cam) (drawn thousandths (in_wall q) q.viewer) ≡ ys)
wall_drawn_example =
    wall_drawn thousandths wide one_building (Memᴰ.tail (Memᴰ.tail (Memᴰ.head refl)))
      (Memᴰ.head refl)

abbrev noon : Date
noon = record { year = 2026; month = 8; day = 5; hours = 12; minutes = 0; seconds = 9 }

-- What its user does with the page.
abbrev rounds : List Event
rounds =
    set_area (codes "유틸")
    ∷ click_sequence
    ∷ tick
    ∷ tick
    ∷ set_layout 9
    ∷ double_click (codes "CAM-11")
    ∷ click_zoom zoom_in noon
    ∷ click_tile (codes "CAM-06")
    ∷ click_move (codes "↑") noon
    ∷ click_timeline 125
    ∷ click_alert (codes "프리셋 1: 전경")
    ∷ []

rounds-All : All IsOffered rounds
unfolding text_eq
rounds-All = (
  Memᴰ.tail (Memᴰ.tail (Memᴰ.tail (Memᴰ.tail (Memᴰ.tail (Memᴰ.head refl))))),
  (tt, (tt, (tt, (tt, ((_, refl), (tt, ((_, refl), (tt, (tt, (tt, tt)))))))))),
)

visit_runs_example :
    (q : Page thousandths) × (c : Camera) × (handle_all thousandths platform wide operator_tab
        rounds
        (open_page thousandths platform wide operator_tab)
      ≡ some q)
    × (first (has_id q.sel) cams ≡ some c)
    × (q.ptz ≡ (c.ptz && can_operate platform operator_tab))
    × Tells thousandths platform wide operator_tab c q.note
visit_runs_example = visit_runs thousandths platform wide operator_tab rounds rounds-All

abbrev gate_view : View thousandths
gate_view = record {
  canvas = canvas_of thousandths 0 0 320000;
  cam = gate_camera;
  scene = scene_in thousandths gate_camera.id (scenes thousandths);
}

abbrev pen : Pen thousandths
pen = record { style = colour (codes "#000000"); saved = [] }

picture_shows_example :
    let cs = picture thousandths maths (λ k. k * 7) 12000 noon gate_view in
    (texts thousandths cs ≡ told thousandths maths gate_camera noon)
    × (painted thousandths maths person_colour cs pen ≡ 0)
    × (painted thousandths maths truck_colour cs pen ≡ 1)
unfolding scene_in text_eq
picture_shows_example = picture_shows thousandths maths (λ k. k * 7) 12000 noon gate_view pen

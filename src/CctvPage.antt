-- ===== src/CctvPage.antt =====
-- app/cctv.html: the wall of cameras, the list beside it, the panel of the selected camera with its
-- commands, and the timer that selects one after the other. A handler that throws gives `none`.
pub mod Ids
pub mod Wall
pub mod Known
pub mod Visits
use project_sh_fms.Prelude.{
  ℕ, zero, suc, ◌+◌, ◌/◌, ◌%◌, Bool, true, false, not, ◌&&◌, ◌||◌, List, [], ◌∷◌, ◌++◌, Option,
  none, some, Text, codes, if◌then◌else◌, ◌==◌, text_eq, select, first, take, length, get_elem?,
  map,
}
use project_sh_fms.Number.{Number}
use project_sh_fms.Auth.{Platform, Browser, can_operate}
use project_sh_fms.Mock.Format.{Date, pad, hms}
use project_sh_fms.Mock.Cameras.{Camera, cams}
use project_sh_fms.Cctv.{Viewer, new_viewer, attach, clear}

-- What the selects of the page offer for the area and for the analysis.
abbrev pub areas : List Text
areas = codes "" ∷ codes "A동" ∷ codes "B동" ∷ codes "C동" ∷ codes "D동" ∷ codes "유틸" ∷ codes "외곽" ∷ []

abbrev pub analyses : List Text
analyses = codes "" ∷ codes "on" ∷ []

abbrev pub is_blank : Text → Bool
is_blank [] = true
is_blank (c ∷ s) = false

-- The test of `filtered`.
abbrev pub is_listed : Text → Text → Camera → Bool
is_listed area ai c =
    if not (is_blank area) && not (text_eq c.area area)
    then false
    else if text_eq ai (codes "on") && (is_blank c.ai || text_eq c.ai (codes "-"))
    then false
    else true

unfoldable pub filtered : Text → Text → List Camera
filtered area ai = select (is_listed area ai) cams

abbrev pub has_id : Text → Camera → Bool
has_id id c = text_eq c.id id

-- `[list[0]]`, whose id is read next.
abbrev pub first_alone : List Camera → Option (List Camera)
first_alone [] = none
first_alone (c ∷ cs) = some (c ∷ [])

abbrev pub or_first : List Camera → List Camera → Option (List Camera)
or_first list [] = first_alone list
or_first list (c ∷ cs) = some (c ∷ cs)

-- `show`, `none` where it would hold undefined.
unfoldable pub shown : ℕ → Text → List Camera → Option (List Camera)
shown n sel list = if n == 1 then or_first list (select (has_id sel) list) else some (take n list)

-- The containers that drawWall puts into the page, one for each camera, numbered from `k` on.
abbrev pub tiles_from : ℕ → List Camera → List (Text × ℕ)
tiles_from k [] = []
tiles_from k (c ∷ cs) = (c.id, k) ∷ tiles_from (k + 1) cs

-- `document.getElementById('w-' + id)`: the first container with that id.
abbrev pub feed : Text → List (Text × ℕ) → Option ℕ
feed id [] = none
feed id ((k, h) ∷ ts) = if text_eq k id then some h else feed id ts

-- The timer of the sequence: its list, which is that of its start, and `i`.
pub record Timer : Type 0 where
  pub list : List Camera
  pub i : ℕ

-- `data-z` of the buttons of the lens.
pub data Lens : Type 0 where
  zoom_in zoom_out home : Lens

-- What the note says of the lens; `data-z` in capitals, but for home.
abbrev pub lens_text : Lens → Text
lens_text zoom_in = codes "ZOOM IN"
lens_text zoom_out = codes "ZOOM OUT"
lens_text home = codes "HOME 위치 복귀"

-- What the user of the page does: the selects and the buttons, with the ids that tiles and rows carry
-- and the instant at which a command is given; `click_timeline` has the minute that the click's place
-- is rounded to. `click_alert` is a button, or a row of the events, whose handler is an alert of that
-- text alone: the presets, the export and the events are such.
pub data Event : Type 0 where
  set_layout : ℕ → Event
  set_area set_ai click_tile double_click click_listed : Text → Event
  apply_filters click_sequence tick : Event
  click_move : Text → Date → Event
  click_zoom : Lens → Date → Event
  click_timeline : ℕ → Event
  click_alert : Text → Event

-- `' (' + Mock.hms(new Date()) + ')'`
abbrev pub at_time : Date → Text
at_time d = codes " (" ++ (hms d ++ codes ")")

-- What pick writes into the note of the panel.
unfoldable pub pick_note : Camera → Bool → Text
pick_note c can =
    if not c.ptz
    then codes "이 카메라는 고정형입니다. PTZ 제어를 지원하지 않습니다."
    else if can
    then codes "ONVIF PTZ 프로파일로 제어합니다. 조작 이력은 감사로그에 기록됩니다."
    else codes "조회전용 계정은 PTZ 를 조작할 수 없습니다."

unfoldable pub move_note : Camera → Text → Date → Text
move_note c d at = c.id ++ (codes " PTZ " ++ (d ++ (codes " 이동 명령 전송" ++ at_time at)))

unfoldable pub zoom_note : Camera → Lens → Date → Text
zoom_note c z at = c.id ++ (codes " " ++ (lens_text z ++ at_time at))

unfoldable pub replay_text : Text → ℕ → Text
replay_text sel mins =
    sel
    ++ (codes " 녹화 재생"
        ++ (10
            ∷ 10
            ∷ (codes "시각 : "
                ++ (pad (mins / 60)
                    ++ (codes ":"
                        ++ (pad (mins % 60) ++ (10 ∷ 10 ∷ codes "(데모 화면이라 실제 재생은 수행하지 않습니다)")))))))

module _ (r : Number) where
  -- `made` counts the containers made for tiles, `ptz` is whether the direction buttons of
  -- the panel are enabled, `note` its note, and `alerts` what the page has alerted, in order.
  pub record Page : Type 0 where
    pub layout : ℕ
    pub area : Text
    pub ai : Text
    pub sel : Text
    pub timer : Option Timer
    pub listed : List Camera
    pub tiles : List (Text × ℕ)
    pub made : ℕ
    pub viewer : Viewer r
    pub ptz : Bool
    pub note : Text
    pub alerts : List Text

  abbrev pub attach_to : (ℕ → r.Num) → Option ℕ → Camera → Viewer r → Option (Viewer r)
  attach_to width none c v = none
  attach_to width (some host) c v = some (attach r host (width host) c v)

  -- `show.forEach(…)`
  unfoldable pub attach_all :
      (ℕ → r.Num) → List (Text × ℕ) → List Camera → Option (Viewer r) → Option (Viewer r)
  attach_all width tiles [] v = v
  attach_all width tiles (c ∷ cs) none = none
  attach_all width tiles (c ∷ cs) (some v) =
      attach_all width tiles cs (attach_to width (feed c.id tiles) c v)

  abbrev pub with_viewer : Page → List (Text × ℕ) → ℕ → Option (Viewer r) → Option Page
  with_viewer p tiles made none = none
  with_viewer p tiles made (some v) = some (record p { tiles = tiles; made = made; viewer = v })

  abbrev pub walled : (ℕ → r.Num) → Page → Option (List Camera) → Option Page
  walled width p none = none
  walled width p (some cs) =
      let tiles = tiles_from p.made cs in
      with_viewer p tiles (p.made + length cs) (attach_all width tiles cs (some (clear r p.viewer)))

  -- drawWall, with the widths that the browser gives the containers.
  unfoldable pub draw_wall : (ℕ → r.Num) → Page → Option Page
  draw_wall width p = walled width p (shown p.layout p.sel (filtered p.area p.ai))

  -- drawList
  abbrev pub draw_list : Page → Page
  draw_list p = record p { listed = filtered p.area p.ai }

  module _ (f : Platform) (width : ℕ → r.Num) (b : Browser) where
    abbrev pub picked : Text → Page → Option Camera → Option Page
    picked id p none = none
    picked id p (some c) = some (
        draw_list (record p {
          sel = id;
          ptz = c.ptz && can_operate f b;
          note = pick_note c (can_operate f b);
        }))

    -- pick
    unfoldable pub pick : Text → Page → Option Page
    pick id p = picked id p (first (has_id id) cams)

    abbrev pub then_wall : Option Page → Option Page
    then_wall none = none
    then_wall (some p) = draw_wall width p

    abbrev pub picked_next : Timer → Page → Option Camera → Option Page
    picked_next w p none = none
    picked_next w p (some c) = then_wall (pick c.id (record p { timer = some w }))

    -- The turn of the timer.
    abbrev pub ticked : Option Timer → Page → Option Page
    ticked none p = some p
    ticked (some w) p =
        let i = (w.i + 1) % length w.list in picked_next (record w { i = i }) p (get_elem? w.list i)

    abbrev pub sequenced : Option Timer → Page → Page
    sequenced (some w) p = record p { timer = none }
    sequenced none p = record p {
      layout = 1;
      timer = some (record { list = filtered p.area p.ai; i = 0 });
    }

    abbrev pub alerted : Text → Page → Page
    alerted s p = record p { alerts = p.alerts ++ s ∷ [] }

    abbrev pub moved : Text → Date → Page → Option Camera → Option Page
    moved d at p none = none
    moved d at p (some c) = some (record p { note = move_note c d at })

    -- A direction button. The browser calls the handler of a button that is enabled.
    unfoldable pub move : Text → Date → Page → Option Page
    move d at p = if p.ptz then moved d at p (first (has_id p.sel) cams) else some p

    abbrev pub zoomed : Lens → Date → Page → Option Camera → Option Page
    zoomed z at p none = none
    zoomed z at p (some c) =
        if not c.ptz
        then some (alerted (codes "고정형 카메라입니다.") p)
        else if not (can_operate f b)
        then some (alerted (codes "조회전용 계정은 조작할 수 없습니다.") p)
        else some (record p { note = zoom_note c z at })

    -- A button of the lens, which is always enabled.
    unfoldable pub zoom : Lens → Date → Page → Option Page
    zoom z at p = zoomed z at p (first (has_id p.sel) cams)

    unfoldable pub handle : Event → Page → Option Page
    handle (set_layout n) p = draw_wall width (draw_list (record p { layout = n }))
    handle (set_area a) p = draw_wall width (draw_list (record p { area = a }))
    handle (set_ai a) p = draw_wall width (draw_list (record p { ai = a }))
    handle apply_filters p = draw_wall width (draw_list p)
    handle (click_tile id) p = pick id p
    handle (double_click id) p = then_wall (pick id (record p { layout = 1 }))
    handle (click_listed id) p = then_wall (pick id p)
    handle click_sequence p = some (sequenced p.timer p)
    handle tick p = ticked p.timer p
    handle (click_move d at) p = move d at p
    handle (click_zoom z at) p = zoom z at p
    handle (click_timeline mins) p = some (alerted (replay_text p.sel mins) p)
    handle (click_alert s) p = some (alerted s p)

    unfoldable pub handle_all : List Event → Option Page → Option Page
    handle_all [] p = p
    handle_all (e ∷ es) none = none
    handle_all (e ∷ es) (some p) = handle_all es (handle e p)

    abbrev pub start_page : Page
    start_page = record {
      layout = 4;
      area = [];
      ai = [];
      sel = codes "CAM-06";
      timer = none;
      listed = [];
      tiles = [];
      made = 0;
      viewer = new_viewer r;
      ptz = false;
      note = [];
      alerts = [];
    }

    abbrev pub then_pick : Text → Option Page → Option Page
    then_pick id none = none
    then_pick id (some p) = pick id p

    -- The page as it opens.
    unfoldable pub open_page : Option Page
    open_page = then_pick (codes "CAM-06") (draw_wall width (draw_list start_page))

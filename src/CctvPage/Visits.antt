-- ===== src/CctvPage/Visits.antt =====
-- Visits to app/cctv.html, with what keeps its handlers going and its panel in step.
use Prim.Native.Nat.{◌<◌}
use project_sh_fms.Prelude.{
  ℕ, ◌+◌, ◌%◌, ◌≡◌, refl, sym, ◌∙◌, Bool, true, false, ◌&&◌, List, [], ◌∷◌, Option, none, some,
  Text, codes, text_eq, first, length, Memᴰ, All, arith, Bool-cases, inl, inr,
}
use project_sh_fms.Number.{Number}
use project_sh_fms.Auth.{Platform, Browser, can_operate}
use project_sh_fms.Mock.Format.{Date}
use project_sh_fms.Mock.Cameras.{Camera, cams}
use project_sh_fms.CctvPage.{
  areas, analyses, has_id, Timer, Event, set_layout, set_area, set_ai, click_tile, double_click,
  click_listed, apply_filters, click_sequence, tick, click_move, click_zoom, click_timeline,
  click_alert, Lens, pick_note, move_note, zoom_note, replay_text, move, zoom, alerted, Page,
  draw_wall, draw_list, pick, then_wall, ticked, sequenced, handle, handle_all, start_page,
  open_page,
}
use project_sh_fms.CctvPage.Wall.{is_nil, filtered-is_nil, draw_wall_keeps}
use project_sh_fms.CctvPage.Known.{IsKnown, AllKnown, get_elem?-AllKnown, filtered-AllKnown}

-- A sequence has a camera to show, and shows cameras of the plant.
abbrev pub TimerRuns : Option Timer → Type 0
TimerRuns none = Unit
TimerRuns (some w) = (is_nil w.list ≡ false) × AllKnown w.list

-- What the page lets its user do: choose what its selects offer, and click tiles and rows of cameras.
abbrev pub IsOffered : Event → Type 0
IsOffered (set_area a) = Memᴰ a areas
IsOffered (set_ai a) = Memᴰ a analyses
IsOffered (click_tile id) = IsKnown id
IsOffered (double_click id) = IsKnown id
IsOffered (click_listed id) = IsKnown id
IsOffered _ = Unit

module _ (r : Number) (f : Platform) (width : ℕ → r.Num) (b : Browser) where
  -- The note is what pick wrote for the camera, or tells of a command to it, given to a camera that
  -- moves and in a tab that may operate.
  pub data Tells (c : Camera) (note : Text) : Type 0 where
    of_pick : note ≡ pick_note c (can_operate f b) → Tells c note
    of_move :
        (c.ptz && can_operate f b) ≡ true
        → (d : Text) (at : Date) → note ≡ move_note c d at
        → Tells c note
    of_zoom :
        (c.ptz && can_operate f b) ≡ true
        → (z : Lens) (at : Date) → note ≡ zoom_note c z at
        → Tells c note

  -- The panel is that of a camera: its direction buttons are enabled exactly if the camera moves and
  -- the tab may operate.
  abbrev pub IsPanel : Text → Bool → Text → Type 0
  IsPanel sel ptz note =
      (c : Camera) × (first (has_id sel) cams ≡ some c)
      × (ptz ≡ (c.ptz && can_operate f b))
      × Tells c note

  -- A page between two handlers; `panel` says whether its panel has been set up.
  pub record Runs (panel : Type 0) (p : Page r) : Type 0 where
    pub area : Memᴰ p.area areas
    pub ai : Memᴰ p.ai analyses
    pub timer : TimerRuns p.timer
    pub side : panel

  abbrev InStep : Page r → Type 0
  InStep p = Runs (IsPanel p.sel p.ptz p.note) p

  wall_some : (p : Page r) → InStep p → (q : Page r) × (draw_wall r width p ≡ some q) × InStep q
  wall_some p h =
      let (ts, n, v, e) = draw_wall_keeps r width p h.area h.ai in
      (
        record p { tiles = ts; made = n; viewer = v },
        e,
        record { area = h.area; ai = h.ai; timer = h.timer; side = h.side },
      )

  pick-some :
      {T : Type 0} (id : Text) (p : Page r)
      → IsKnown id
      → Runs T p
      → (q : Page r) × (pick r f width b id p ≡ some q) × InStep q
  unfolding pick
  pick-some id p (c, e) h = (
    draw_list r (record p {
      sel = id;
      ptz = c.ptz && can_operate f b;
      note = pick_note c (can_operate f b);
    }),
    rw e refl,
    record { area = h.area; ai = h.ai; timer = h.timer; side = (c, e, refl, of_pick refl) },
  )

  pick_wall_some :
      {T : Type 0} (id : Text) (p : Page r)
      → IsKnown id
      → Runs T p
      → (q : Page r) × (then_wall r f width b (pick r f width b id p) ≡ some q) × InStep q
  pick_wall_some id p k h =
      let (q, e, i) = pick-some id p k h in let (q', e', i') = wall_some q i in (q', rw e e', i')

  ticked-some :
      (o : Option Timer) (p : Page r)
      → TimerRuns o
      → InStep p
      → (q : Page r) × (ticked r f width b o p ≡ some q) × InStep q
  ticked-some none p t h = (p, refl, h)
  ticked-some (some w) p t h =
      let i = (w.i + 1) % length w.list in
      let (c, e, k) = get_elem?-AllKnown w.list i (below w.list t.0) t.1 in
      let w' : Timer = record w { i = i } in
      let (q, e', j) =
        pick_wall_some {T = IsPanel p.sel p.ptz p.note} c.id (record p { timer = some w' }) k
          (record { area = h.area; ai = h.ai; timer = t; side = h.side }) in
      (q, rw e e', j)
    where
      below : (cs : List Camera) → is_nil cs ≡ false → (w.i + 1) % length cs < length cs
      below [] n = absurd cc
      below (c ∷ cs) n = omega arith

  sequenced-Runs : (o : Option Timer) (p : Page r) → InStep p → InStep (sequenced r f width b o p)
  sequenced-Runs (some w) p h = record { area = h.area; ai = h.ai; timer = tt; side = h.side }
  sequenced-Runs none p h = record {
    area = h.area;
    ai = h.ai;
    timer = (filtered-is_nil p.area p.ai h.area h.ai, filtered-AllKnown p.area p.ai);
    side = h.side;
  }

  move-some :
      (d : Text) (at : Date) (p : Page r)
      → InStep p
      → (q : Page r) × (move r f width b d at p ≡ some q) × InStep q
  unfolding move
  move-some d at p h =
      let (c, e, k, t) = h.side in
      elim (Bool-cases p.ptz) [
        | inl y ↦ (
          record p { note = move_note c d at },
          rw (y, e) refl,
          record {
            area = h.area;
            ai = h.ai;
            timer = h.timer;
            side = (c, e, k, of_move (sym k ∙ y) d at refl);
          },
        )
        | inr y ↦ (p, rw y refl, h)
      ]

  alerted-InStep : (s : Text) (p : Page r) → InStep p → InStep (alerted r f width b s p)
  alerted-InStep s p h = record { area = h.area; ai = h.ai; timer = h.timer; side = h.side }

  zoom-some :
      (z : Lens) (at : Date) (p : Page r)
      → InStep p
      → (q : Page r) × (zoom r f width b z at p ≡ some q) × InStep q
  unfolding zoom
  zoom-some z at p h =
      let (c, e, k, t) = h.side in
      elim (Bool-cases c.ptz) [
        | inl y ↦ elim (Bool-cases (can_operate f b)) [
          | inl o ↦ (
            record p { note = zoom_note c z at },
            rw (e, y, o) refl,
            record {
              area = h.area;
              ai = h.ai;
              timer = h.timer;
              side = (c, e, k, of_zoom (rw (y, o) refl) z at refl);
            },
          )
          | inr o ↦ (
            alerted r f width b (codes "조회전용 계정은 조작할 수 없습니다.") p,
            rw (e, y, o) refl,
            alerted-InStep _ p h,
          )
        ]
        | inr y ↦
            (alerted r f width b (codes "고정형 카메라입니다.") p, rw (e, y) refl, alerted-InStep _ p h)
      ]

  handle-some :
      (e : Event) (p : Page r)
      → IsOffered e
      → InStep p
      → (q : Page r) × (handle r f width b e p ≡ some q) × InStep q
  unfolding handle
  handle-some (set_layout n) p o h =
      wall_some (draw_list r (record p { layout = n }))
        (record { area = h.area; ai = h.ai; timer = h.timer; side = h.side })
  handle-some (set_area a) p o h =
      wall_some (draw_list r (record p { area = a }))
        (record { area = o; ai = h.ai; timer = h.timer; side = h.side })
  handle-some (set_ai a) p o h =
      wall_some (draw_list r (record p { ai = a }))
        (record { area = h.area; ai = o; timer = h.timer; side = h.side })
  handle-some apply_filters p o h =
      wall_some (draw_list r p)
        (record { area = h.area; ai = h.ai; timer = h.timer; side = h.side })
  handle-some (click_tile id) p o h = pick-some id p o h
  handle-some (double_click id) p o h =
      pick_wall_some {T = IsPanel p.sel p.ptz p.note} id (record p { layout = 1 }) o
        (record { area = h.area; ai = h.ai; timer = h.timer; side = h.side })
  handle-some (click_listed id) p o h = pick_wall_some id p o h
  handle-some click_sequence p o h =
      (sequenced r f width b p.timer p, refl, sequenced-Runs p.timer p h)
  handle-some tick p o h = ticked-some p.timer p h.timer h
  handle-some (click_move d at) p o h = move-some d at p h
  handle-some (click_zoom z at) p o h = zoom-some z at p h
  handle-some (click_timeline mins) p o h = (_, refl, alerted-InStep (replay_text p.sel mins) p h)
  handle-some (click_alert s) p o h = (_, refl, alerted-InStep s p h)

  handle_all-some :
      (es : List Event) (p : Page r)
      → All IsOffered es
      → InStep p
      → (q : Page r) × (handle_all r f width b es (some p) ≡ some q) × InStep q
  unfolding handle_all
  handle_all-some [] p o h = (p, refl, h)
  handle_all-some (e ∷ es) p o h =
      let (q, e', i) = handle-some e p o.0 h in
      let (q', e'', i') = handle_all-some es q o.1 i in (q', rw e' e'', i')

  open_some : (p : Page r) × (open_page r f width b ≡ some p) × InStep p
  unfolding open_page text_eq
  open_some =
      let p0 : Page r = draw_list r (start_page r f width b) in
      let (ts, n, v, e) = draw_wall_keeps r width p0 (Memᴰ.head refl) (Memᴰ.head refl) in
      let (q, e', i) =
        pick-some {T = Unit} (codes "CAM-06") (record p0 { tiles = ts; made = n; viewer = v })
          (_, refl)
          (record { area = Memᴰ.head refl; ai = Memᴰ.head refl; timer = tt; side = tt }) in
      (q, rw e e', i)

  -- From opening the page, whatever its user does with what the page offers, the commands of the panel
  -- included, and whenever the timer of the sequence ticks, no handler throws. Then the direction
  -- buttons are enabled exactly if the selected camera moves and the tab may operate; and the note of
  -- the panel is that of the selected camera, where it tells of a command only if that camera moves and
  -- the tab may operate.
  pub visit_runs :
      (es : List Event)
      → All IsOffered es
      → (q : Page r) × (c : Camera) × (handle_all r f width b es (open_page r f width b) ≡ some q)
        × (first (has_id q.sel) cams ≡ some c)
        × (q.ptz ≡ (c.ptz && can_operate f b))
        × Tells c q.note
  visit_runs es o =
      let (p, e, i) = open_some in
      let (q, e', j) = handle_all-some es p o i in
      let (c, k, s, t) = j.side in (q, c, rw e e', k, s, t)

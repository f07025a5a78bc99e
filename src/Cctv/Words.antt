-- ===== src/Cctv/Words.antt =====
-- What drawOsd of assets/js/cctv.js writes over a picture, and that it paints no figures.
use project_sh_fms.Prelude.{
  ◌+◌, ◌≡◌, refl, ap, ap₂, ◌∙◌, Bool, true, false, List, [], ◌∷◌, ◌++◌, Text, codes, if◌then◌else◌,
  text_eq, Bool-cases, inl, inr,
}
use project_sh_fms.Number.{Number}
use project_sh_fms.Mock.Format.{Date, ymd, hms}
use project_sh_fms.Mock.Cameras.{Camera}
use project_sh_fms.Cctv.Context.{Maths, Command, Pen, texts, texts-append, filled, after_all}
use project_sh_fms.Cctv.Overlay.{
  draw_osd, title, title_bar, rec_mark, time_bar, stream_text, stream_note, analysis_box,
  is_analysed, is_hot, is_blinking,
}
use project_sh_fms.Cctv.Painting.{person_colour, truck_colour}
use project_sh_fms.Cctv.Figures.{painted, painted-append}

module _ (r : Number) (m : Maths r) where
  -- What is written over the picture of a camera.
  abbrev pub told : Camera → Date → List Text
  told cam d =
      (title r m cam ∷ (if cam.rec then codes "REC" ∷ [] else []))
      ++ ((ymd d ++ (codes " " ++ hms d))
          ∷ stream_text r m
          ∷ (if is_analysed r m cam.ai then cam.ai ∷ [] else []))

  texts-rec_mark :
      (b : Bool) (w t : r.Num)
      → texts r (if b then rec_mark r m w t else []) ≡ (if b then codes "REC" ∷ [] else [])
  unfolding texts
  texts-rec_mark true w t = refl
  texts-rec_mark false w t = refl

  texts-analysis_box :
      (b : Bool) (w h : r.Num) (ai : Text) (t : r.Num)
      → texts r (if b then analysis_box r m w h ai t else []) ≡ (if b then ai ∷ [] else [])
  unfolding texts
  texts-analysis_box true w h ai t = refl
  texts-analysis_box false w h ai t = refl

  pub texts-draw_osd :
      (w h t : r.Num) (cam : Camera) (d : Date) → texts r (draw_osd r m w h cam t d) ≡ told cam d
  unfolding draw_osd texts
  texts-draw_osd w h t cam d =
      let end = if is_analysed r m cam.ai then analysis_box r m w h cam.ai t else [] in
      let mark = if cam.rec then rec_mark r m w t else [] in
      ap (λ xs. title r m cam ∷ xs)
        (texts-append r mark (time_bar r m h d ++ (stream_note r m w h ++ end))
          ∙ ap₂ ◌++◌ (texts-rec_mark cam.rec w t) (
              ap (λ xs. (ymd d ++ (codes " " ++ hms d)) ∷ stream_text r m ∷ xs)
                (texts-analysis_box (is_analysed r m cam.ai) w h cam.ai t)))

  -- A drawing that fills no shape with the colours of people and of vehicles.
  pub record Clear (cs : List (Command r)) : Type 0 where
    pub people : (p : Pen r) → painted r m person_colour cs p ≡ 0
    pub trucks : (p : Pen r) → painted r m truck_colour cs p ≡ 0

  append-Clear : (xs ys : List (Command r)) → Clear xs → Clear ys → Clear (xs ++ ys)
  append-Clear xs ys h k = record {
    people = λ p.
        painted-append r m person_colour xs ys p
        ∙ ap₂ ◌+◌ (h.people p) (k.people (after_all r xs p));
    trucks = λ p.
        painted-append r m truck_colour xs ys p
        ∙ ap₂ ◌+◌ (h.trucks p) (k.trucks (after_all r xs p));
  }

  title_bar-Clear : (cam : Camera) → Clear (title_bar r m cam)
  unfolding filled after_all text_eq
  title_bar-Clear cam = record { people = λ p. refl; trucks = λ p. refl }

  rec_mark-Clear : (b : Bool) (w t : r.Num) → Clear (if b then rec_mark r m w t else [])
  unfolding filled after_all text_eq
  rec_mark-Clear false w t = record { people = λ p. refl; trucks = λ p. refl }
  rec_mark-Clear true w t = elim (Bool-cases (is_blinking r m t)) [
    | inl e ↦ record { people = λ p. rw e refl; trucks = λ p. rw e refl }
    | inr e ↦ record { people = λ p. rw e refl; trucks = λ p. rw e refl }
  ]

  time_bar-Clear : (h : r.Num) (d : Date) → Clear (time_bar r m h d)
  unfolding filled after_all text_eq
  time_bar-Clear h d = record { people = λ p. refl; trucks = λ p. refl }

  stream_note-Clear : (w h : r.Num) → Clear (stream_note r m w h)
  unfolding filled after_all text_eq
  stream_note-Clear w h = record { people = λ p. refl; trucks = λ p. refl }

  analysis_box-Clear :
      (b : Bool) (w h : r.Num) (ai : Text) (t : r.Num)
      → Clear (if b then analysis_box r m w h ai t else [])
  unfolding filled after_all text_eq
  analysis_box-Clear false w h ai t = record { people = λ p. refl; trucks = λ p. refl }
  analysis_box-Clear true w h ai t = elim (Bool-cases (is_hot r m ai)) [
    | inl e ↦ record { people = λ p. rw e refl; trucks = λ p. rw e refl }
    | inr e ↦ record { people = λ p. rw e refl; trucks = λ p. rw e refl }
  ]

  pub draw_osd-Clear : (w h t : r.Num) (cam : Camera) (d : Date) → Clear (draw_osd r m w h cam t d)
  unfolding draw_osd filled after_all
  draw_osd-Clear w h t cam d =
      let inner = append-Clear _ _ (title_bar-Clear cam) (
        append-Clear _ _ (rec_mark-Clear cam.rec w t) (
          append-Clear _ _ (time_bar-Clear h d) (
            append-Clear _ _ (stream_note-Clear w h)
              (analysis_box-Clear (is_analysed r m cam.ai) w h cam.ai t)))) in
      record { people = λ p. inner.people p; trucks = λ p. inner.trucks p }

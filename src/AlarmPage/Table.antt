-- ===== src/AlarmPage/Table.antt =====
-- app/alarm.html: the figures of `kpis`, and the filters and rows of `render`.
use project_sh_fms.Prelude.{
  ℕ, ◌/◌, ◌%◌, Bool, true, false, not, ◌&&◌, List, [], ◌∷◌, ◌++◌, map, Option, none, some, Text,
  codes, if◌then◌else◌, ◌==◌, ltb, select, length, text_eq,
}
use project_sh_fms.Js.Decimal.{decimal}
use project_sh_fms.Mock.Alarms.{Alarm, Load}

pub record Figure : Type 0 where
  pub value : ℕ
  pub tone : Text  -- the class of its card

pub record Figures : Type 0 where
  pub unack : Figure
  pub p1 : Figure
  pub day : Figure
  pub peak : Figure
  pub shelf : Figure

-- `Math.max.apply(null, cnt)` of a list that is not empty.
unfoldable pub largest : ℕ → List ℕ → ℕ
largest m [] = m
largest m (n ∷ ns) = largest (if ltb m n then n else m) ns

abbrev pub tone_if : Bool → Text → Text
tone_if t s = if t then s else []

abbrev pub shown : ℕ → Bool → Text → Figure
shown n t s = record { value = n; tone = tone_if t s }

unfoldable pub figures : Load → List Alarm → Figures
unfolding largest
figures ld xs =
    let un = select (λ a. not a.ack) xs in
    let p1 = select (λ a. a.pri == 1) un in
    let sh = select (λ a. a.shelved) xs in
    let peak = largest 0 ld.cnt in
    record {
      unack = shown (length un) (ltb 0 (length un)) (codes "warn");
      p1 = shown (length p1) (ltb 0 (length p1)) (codes "alarm");
      day = shown ld.day (ltb 300 ld.day) (codes "alarm");
      peak = shown peak (ltb ld.target peak) (codes "warn");
      shelf = shown (length sh) (ltb 0 (length sh)) (codes "act");
    }

-- `f-st`: '', 'un', 'ack' or 'sh'.
pub data Status : Type 0 where
  any un ack sh : Status

abbrev pub status_fits : Status → Alarm → Bool
status_fits any a = true
status_fits un a = not a.ack
status_fits ack a = a.ack
status_fits sh a = a.shelved

abbrev pub pri_fits : Option ℕ → Alarm → Bool
pri_fits none a = true
pri_fits (some p) a = a.pri == p

abbrev pub area_fits : Option Text → Alarm → Bool
area_fits none a = true
area_fits (some ar) a = text_eq a.area ar

-- The test of `render`; a filter left empty is `none`.
unfoldable pub fits : Option ℕ → Option Text → Status → Alarm → Bool
fits p ar st a =
    if not (pri_fits p a) then false else if not (area_fits ar a) then false else status_fits st a

unfoldable pub visible : Option ℕ → Option Text → Status → List Alarm → List Alarm
unfolding fits
visible p ar st xs = select (fits p ar st) xs

-- `elapsed(a)`
unfoldable pub elapsed : Alarm → Text
elapsed a =
    if ltb a.min 60
    then decimal a.min ++ codes "분"
    else decimal (a.min / 60) ++ (codes "시간 " ++ (decimal (a.min % 60) ++ codes "분"))

-- What a row says of its alarm, and the buttons that it has.
pub data Standing : Type 0 where
  shelved confirmed unconfirmed : Standing

pub data Buttons : Type 0 where
  details_only ack_and_shelf : Buttons

pub record Row : Type 0 where
  pub cls : Text
  pub standing : Standing
  pub buttons : Buttons
  pub since : Text
  pub of : Alarm

unfoldable pub row_of : Alarm → Row
row_of a = record {
  cls = tone_if (a.pri == 1 && not a.ack) (codes "p1 ") ++ tone_if a.ack (codes "ack");
  standing = if a.shelved then shelved else if a.ack then confirmed else unconfirmed;
  buttons = if a.ack then details_only else ack_and_shelf;
  since = elapsed a;
  of = a;
}

unfoldable pub table : Option ℕ → Option Text → Status → List Alarm → List Row
unfolding visible row_of
table p ar st xs = map row_of (visible p ar st xs)

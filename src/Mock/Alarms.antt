-- ===== src/Mock/Alarms.antt =====
-- assets/js/mock.js, lines 59-94: the alarms that the screens show, made once and then kept, and
-- the figures of the alarm load.
pub mod Ids
use project_sh_fms.Prelude.{
  ℕ, zero, suc, ◌+◌, ◌*◌, ◌-◌, Bool, true, false, not, List, [], ◌∷◌, ◌++◌, map, Option, none, some,
  Text, codes, if◌then◌else◌, ◌==◌, select, drop,
}
use project_sh_fms.Mock.Format.{Date, pad, hms, ymd}

pub record Alarm : Type 0 where
  pub pri : ℕ
  pub tag : Text
  pub area : Text
  pub msg : Text
  pub kind : Text  -- `type` in the source
  pub ack : Bool
  pub shelved : Bool
  pub min : ℕ
  pub at : Text
  pub date : Text
  pub id : Text

-- An entry of the table, before it is dated.
abbrev pub raw_alarm : ℕ → Text → Text → Text → Text → Bool → Bool → ℕ → Alarm
raw_alarm pri tag area msg kind ack shelved min = record {
  pri = pri;
  tag = tag;
  area = area;
  msg = msg;
  kind = kind;
  ack = ack;
  shelved = shelved;
  min = min;
  at = [];
  date = [];
  id = [];
}

abbrev pub raw_alarms : List Alarm
raw_alarms =
    raw_alarm 1 (codes "CT02_TT401") (codes "B동") (codes "건조로 온도 상한상한 초과 (141.2℃ / HH 138.0℃)")
      (codes "PVHH") false false 4
    ∷ raw_alarm 1 (codes "CT02_MTR40") (codes "B동") (codes "라인 구동 모터 과부하 트립 — 라인 정지") (codes "TRIP")
        false false 6
    ∷ raw_alarm 2 (codes "MIX02_TT201") (codes "A동") (codes "반응조 온도 상한 접근 (63.8℃ / H 66.0℃)")
        (codes "PVH") false false 12
    ∷ raw_alarm 2 (codes "UTL_AIR701") (codes "유틸") (codes "압축공기 공급압 저하 경향 (6.4bar)") (codes "PVL")
        false false 18
    ∷ raw_alarm 3 (codes "PK01_STS90") (codes "D동") (codes "포장라인 대기 상태 30분 경과") (codes "STS") false
        false 31
    ∷ raw_alarm 2 (codes "CT01_TH303") (codes "B동") (codes "도포두께 관리상한 접근 (0.124mm)") (codes "PVH")
        true false 44
    ∷ raw_alarm 3 (codes "ENV_VOC801") (codes "A동") (codes "VOC 농도 상승 (18.4ppm)") (codes "PVH") true
        false 52
    ∷ raw_alarm 2 (codes "AS01_CY501") (codes "C동") (codes "사이클타임 목표 초과 (4.12s / 4.00s)")
        (codes "PVH") true false 68
    ∷ raw_alarm 3 (codes "MIX01_ST103") (codes "A동") (codes "교반속도 설정값 편차") (codes "DEV") true true
        95
    ∷ raw_alarm 2 (codes "UTL_CHW702") (codes "유틸") (codes "냉각수 공급온도 상승 (12.6℃)") (codes "PVH") true
        false 112
    ∷ raw_alarm 3 (codes "INS01_CAM1") (codes "C동") (codes "비전 카메라 조도 편차") (codes "DIAG") true false
        140
    ∷ raw_alarm 1 (codes "CT02_TT401") (codes "B동") (codes "건조로 온도 상한 초과 (132.4℃)") (codes "PVH")
        true false 166
    ∷ []

-- `'AL-' + ymd(d).replace(/-/g, '').slice(2) + '-' + pad(100 - i)`
unfoldable pub alarm_id : Date → ℕ → Text
alarm_id d i =
    codes "AL-" ++ (drop 2 (select (λ c. not (c == b'-')) (ymd d)) ++ (b'-' ∷ pad (100 - i)))

module _ (local : ℕ → Date) where
  unfoldable pub dated : ℕ → ℕ → Alarm → Alarm
  dated now i a =
      let d = local (now - a.min * 60000) in
      record a { at = hms d; date = ymd d; id = alarm_id d i }

  -- `A.map(function (a, i) { … })`, from index `i` on.
  unfoldable pub dated_from : ℕ → ℕ → List Alarm → List Alarm
  dated_from now i [] = []
  dated_from now i (a ∷ rest) = dated now i a ∷ dated_from now (suc i) rest

  -- `alarms()`: the list, and what `_alarms` holds afterwards.
  unfoldable pub alarms : Option (List Alarm) → ℕ → List Alarm × Option (List Alarm)
  alarms (some kept) now = (kept, some kept)
  alarms none now = let made = dated_from now 0 raw_alarms in (made, some made)

pub record Load : Type 0 where
  pub hours : List Text
  pub cnt : List ℕ
  pub day : ℕ
  pub target : ℕ

abbrev pub load_base : List ℕ
load_base =
    4 ∷ 3 ∷ 2 ∷ 3 ∷ 5 ∷ 7 ∷ 11 ∷ 9 ∷ 6 ∷ 5 ∷ 8 ∷ 14 ∷ 7 ∷ 5 ∷ 4 ∷ 6 ∷ 9 ∷ 12 ∷ 8 ∷ 5 ∷ 4 ∷ 3 ∷ 3 ∷ 4
    ∷ []

unfoldable pub sum : List ℕ → ℕ
sum [] = 0
sum (n ∷ ns) = n + sum ns

-- The labels of the hours from `h` on.
unfoldable pub hours_from : ℕ → ℕ → List Text
hours_from h zero = []
hours_from h (suc n) = pad h ∷ hours_from (suc h) n

unfoldable pub alarm_load : Load
unfolding sum hours_from
alarm_load = record { hours = hours_from 0 24; cnt = load_base; day = sum load_base; target = 6 }

-- ===== src/Mock/Cameras.antt =====
-- assets/js/mock.js: the cameras of the plant and the events that their analysis reported.
use project_sh_fms.Prelude.{ℕ, ◌-◌, ◌*◌, Bool, true, false, List, [], ◌∷◌, map, Text, codes}
use project_sh_fms.Mock.Format.{Date, hms}

pub record Camera : Type 0 where
  pub id : Text
  pub name : Text
  pub area : Text
  pub ptz : Bool
  pub rec : Bool
  pub ai : Text

abbrev pub camera : Text → Text → Text → Bool → Bool → Text → Camera
camera id name area ptz rec ai = record {
  id = id;
  name = name;
  area = area;
  ptz = ptz;
  rec = rec;
  ai = ai;
}

-- CAMS
abbrev pub cams : List Camera
cams =
    camera (codes "CAM-01") (codes "A동 배합실 전경") (codes "A동") true true (codes "침입감지")
    ∷ camera (codes "CAM-02") (codes "A동 원료 투입구") (codes "A동") false true (codes "안전모 미착용")
    ∷ camera (codes "CAM-03") (codes "B동 코팅 1라인") (codes "B동") true true (codes "-")
    ∷ camera (codes "CAM-04") (codes "B동 코팅 2라인") (codes "B동") false true (codes "화재/연기")
    ∷ camera (codes "CAM-05") (codes "B동 건조로 후단") (codes "B동") false true (codes "-")
    ∷ camera (codes "CAM-06") (codes "C동 조립라인 전경") (codes "C동") true true (codes "위험구역 진입")
    ∷ camera (codes "CAM-07") (codes "C동 검사 스테이션") (codes "C동") false true (codes "-")
    ∷ camera (codes "CAM-08") (codes "D동 포장/출하") (codes "D동") true true (codes "지게차 접근")
    ∷ camera (codes "CAM-09") (codes "외곽 정문") (codes "외곽") true true (codes "차량번호")
    ∷ camera (codes "CAM-10") (codes "폐수처리장") (codes "유틸") false true (codes "-")
    ∷ camera (codes "CAM-11") (codes "위험물 저장소") (codes "유틸") false true (codes "침입감지")
    ∷ camera (codes "CAM-12") (codes "옥외 원료탱크") (codes "외곽") true false (codes "-")
    ∷ []

-- An event of camEvents, before and after it gets its time of day.
pub record CamEvent : Type 0 where
  pub m : ℕ
  pub cam : Text
  pub t : Text
  pub lv : Text
  pub d : Text
  pub at : Text

abbrev pub cam_event : ℕ → Text → Text → Text → Text → CamEvent
cam_event m cam t lv d = record { m = m; cam = cam; t = t; lv = lv; d = d; at = [] }

-- `E`
abbrev pub raw_cam_events : List CamEvent
raw_cam_events =
    cam_event 2 (codes "CAM-06") (codes "위험구역 진입") (codes "bad") (codes "C동 프레스 구역 안전펜스 내부 인원 감지")
    ∷ cam_event 9 (codes "CAM-02") (codes "안전모 미착용") (codes "warn") (codes "A동 원료 투입구 작업자 1명")
    ∷ cam_event 17 (codes "CAM-08") (codes "지게차 접근") (codes "warn") (codes "D동 출하장 보행자 근접 (2.1m)")
    ∷ cam_event 34 (codes "CAM-09") (codes "차량 출입") (codes "info")
        (codes "정문 화물차 진입 (12구4417) — 금성케미칼")
    ∷ cam_event 48 (codes "CAM-11") (codes "침입감지") (codes "warn") (codes "위험물 저장소 야간 출입 — 사전승인 확인됨")
    ∷ cam_event 62 (codes "CAM-04") (codes "연기 감지") (codes "info") (codes "B동 코팅2 건조로 증기 — 오탐 처리")
    ∷ cam_event 88 (codes "CAM-09") (codes "차량 출입") (codes "info") (codes "정문 화물차 출차 (37머8021)")
    ∷ []

-- camEvents, at an instant and in a time zone.
unfoldable pub cam_events : (ℕ → Date) → ℕ → List CamEvent
cam_events local now =
    map {B = CamEvent} (λ e. record e { at = hms (local (now - e.m * 60000)) }) raw_cam_events

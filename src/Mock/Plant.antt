-- ===== src/Mock/Plant.antt =====
-- assets/js/mock.js: the tables of equipment, frequent alarms, reactors, energy and safety.
use project_sh_fms.Prelude.{ℕ, List, [], ◌∷◌, Text, codes}
use project_sh_fms.Number.{Number}

module _ (r : Number) where
  open r use {Num, lit}

  -- EQUIP
  pub record Equipment : Type 0 where
    pub code : Text
    pub name : Text
    pub area : Text
    pub status : Text
    pub item : Text
    pub oee : Num

  abbrev pub equipment : Text → Text → Text → Text → Text → Num → Equipment
  equipment code name area status item oee = record {
    code = code;
    name = name;
    area = area;
    status = status;
    item = item;
    oee = oee;
  }

  abbrev pub equip : List Equipment
  equip =
      equipment (codes "MIX-01") (codes "배합 1호기") (codes "A동") (codes "가동") (codes "SH-AD330")
        (lit 842 1)
      ∷ equipment (codes "MIX-02") (codes "배합 2호기") (codes "A동") (codes "가동") (codes "SH-EM220")
          (lit 881 1)
      ∷ equipment (codes "CT-01") (codes "코팅 1라인") (codes "B동") (codes "가동") (codes "SH-CF100")
          (lit 794 1)
      ∷ equipment (codes "CT-02") (codes "코팅 2라인") (codes "B동") (codes "정지") (codes "-") (lit 416 1)
      ∷ equipment (codes "AS-01") (codes "조립 1라인") (codes "C동") (codes "가동") (codes "SH-PM450")
          (lit 867 1)
      ∷ equipment (codes "AS-02") (codes "조립 2라인") (codes "C동") (codes "셋업") (codes "SH-PM450")
          (lit 723 1)
      ∷ equipment (codes "INS-01") (codes "검사 라인") (codes "C동") (codes "가동") (codes "SH-CF100")
          (lit 912 1)
      ∷ equipment (codes "PK-01") (codes "포장 라인") (codes "D동") (codes "대기") (codes "-") (lit 689 1)
      ∷ []

  -- topAlarms
  pub record Offender : Type 0 where
    pub tag : Text
    pub desc : Text
    pub cnt : ℕ
    pub act : Text

  abbrev pub offender : Text → Text → ℕ → Text → Offender
  offender tag desc cnt act = record { tag = tag; desc = desc; cnt = cnt; act = act }

  abbrev pub top_alarms : List Offender
  top_alarms =
      offender (codes "CT02_TT401") (codes "코팅2 건조로 온도") 38 (codes "필터 교체주기 단축 검토")
      ∷ offender (codes "UTL_AIR701") (codes "압축공기 공급압") 27 (codes "컴프레서 1호 점검")
      ∷ offender (codes "PK01_STS90") (codes "포장라인 대기") 21 (codes "상태기반 억제 적용 검토")
      ∷ offender (codes "MIX02_TT201") (codes "배합2 반응조 온도") 16 (codes "상한값 재설정 검토")
      ∷ offender (codes "AS01_CY501") (codes "조립1 사이클타임") 14 (codes "-")
      ∷ offender (codes "ENV_VOC801") (codes "A동 VOC") 9 (codes "-")
      ∷ []

  -- reactors
  pub record Reactor : Type 0 where
    pub id : Text
    pub name : Text
    pub batch : Text
    pub recipe : Text
    pub phase : Text
    pub phase_idx : ℕ
    pub temp : Num
    pub sp_temp : Num
    pub press : Num
    pub rpm : Num
    pub level : Num
    pub jacket : Num
    pub elapsed : Text
    pub remain : Text
    pub status : Text

  abbrev pub reactor :
      Text
      → Text
      → Text
      → Text
      → Text
      → ℕ
      → Num
      → Num
      → Num
      → Num
      → Num
      → Num
      → Text
      → Text
      → Text
      → Reactor
  reactor id name batch recipe phase phase_idx temp sp_temp press rpm level jacket elapsed remain
        status =
      record {
        id = id;
        name = name;
        batch = batch;
        recipe = recipe;
        phase = phase;
        phase_idx = phase_idx;
        temp = temp;
        sp_temp = sp_temp;
        press = press;
        rpm = rpm;
        level = level;
        jacket = jacket;
        elapsed = elapsed;
        remain = remain;
        status = status;
      }

  abbrev pub reactors : List Reactor
  reactors =
      reactor (codes "R-201") (codes "반응기 201 (배합 2호기)") (codes "BT-260923-004")
        (codes "RC-EM220-v4") (codes "교반") 3 (lit 638 1) (lit 62 0) (lit 108 2) (lit 138 0)
        (lit 72 0) (lit 582 1) (codes "02:41") (codes "01:19") (codes "진행")
      ∷ reactor (codes "R-101") (codes "반응기 101 (배합 1호기)") (codes "BT-260923-003")
          (codes "RC-AD330-v2") (codes "냉각") 5 (lit 486 1) (lit 45 0) (lit 102 2) (lit 60 0)
          (lit 55 0) (lit 224 1) (codes "04:12") (codes "00:28") (codes "진행")
      ∷ []

  -- energyByArea
  pub record AreaEnergy : Type 0 where
    pub area : Text
    pub pw : Num
    pub ratio : Num
    pub prev : Num
    pub unit : Num

  abbrev pub area_energy : Text → Num → Num → Num → Num → AreaEnergy
  area_energy area pw ratio prev unit = record {
    area = area;
    pw = pw;
    ratio = ratio;
    prev = prev;
    unit = unit;
  }

  abbrev pub energy_by_area : List AreaEnergy
  energy_by_area =
      area_energy (codes "A동 배합") (lit 286 0) (lit 241 1) (lit 271 0) (lit 412 3)
      ∷ area_energy (codes "B동 코팅") (lit 448 0) (lit 378 1) (lit 402 0) (lit 238 3)
      ∷ area_energy (codes "C동 조립") (lit 212 0) (lit 179 1) (lit 218 0) (lit 94 3)
      ∷ area_energy (codes "D동 포장") (lit 84 0) (lit 71 1) (lit 88 0) (lit 31 3)
      ∷ area_energy (codes "유틸리티") (lit 156 0) (lit 131 1) (lit 149 0) (lit 0 0)
      ∷ []

  -- zones
  pub record Zone : Type 0 where
    pub z : Text
    pub risk : Text
    pub people : ℕ
    pub gas : Text
    pub fire : Text
    pub st : Text

  abbrev pub zone : Text → Text → ℕ → Text → Text → Text → Zone
  zone z risk people gas fire st = record {
    z = z;
    risk = risk;
    people = people;
    gas = gas;
    fire = fire;
    st = st;
  }

  abbrev pub zones : List Zone
  zones =
      zone (codes "A동 배합실") (codes "화학물질 취급") 3 (codes "정상") (codes "정상") (codes "ok")
      ∷ zone (codes "B동 코팅라인") (codes "고온 · VOC") 5 (codes "주의") (codes "정상") (codes "warn")
      ∷ zone (codes "C동 조립라인") (codes "협착 · 프레스") 8 (codes "정상") (codes "정상") (codes "bad")
      ∷ zone (codes "D동 포장 · 출하") (codes "지게차 동선") 4 (codes "정상") (codes "정상") (codes "ok")
      ∷ zone (codes "위험물 저장소") (codes "인화성 물질") 0 (codes "정상") (codes "정상") (codes "ok")
      ∷ zone (codes "폐수처리장") (codes "밀폐공간") 1 (codes "정상") (codes "정상") (codes "ok")
      ∷ []

  -- checks
  pub record Check : Type 0 where
    pub n : Text
    pub cyc : Text
    pub last : Text
    pub next : Text
    pub st : Text

  abbrev pub due_check : Text → Text → Text → Text → Text → Check
  due_check n cyc last next st = record { n = n; cyc = cyc; last = last; next = next; st = st }

  abbrev pub checks : List Check
  checks =
      due_check (codes "위험성평가 정기 실시") (codes "반기 1회") (codes "2026-07-02") (codes "2027-01-02")
        (codes "완료")
      ∷ due_check (codes "안전보건 교육") (codes "분기 1회") (codes "2026-07-15") (codes "2026-10-15")
          (codes "예정")
      ∷ due_check (codes "소방시설 점검") (codes "월 1회") (codes "2026-09-05") (codes "2026-10-05")
          (codes "예정")
      ∷ due_check (codes "밀폐공간 작업허가") (codes "작업 시") (codes "2026-09-18") (codes "-") (codes "완료")
      ∷ due_check (codes "가스검지기 교정") (codes "반기 1회") (codes "2026-03-20") (codes "2026-09-20")
          (codes "경과")
      ∷ due_check (codes "비상대응 훈련") (codes "연 1회") (codes "2026-05-14") (codes "2027-05-14")
          (codes "완료")
      ∷ []

  -- What safety returns.
  pub record Safety : Type 0 where
    pub zones_of : List Zone
    pub checks_of : List Check
    pub days : ℕ
    pub near : ℕ
    pub ptw : ℕ
    pub ppe : ℕ

  abbrev pub safety : Safety
  safety = record { zones_of = zones; checks_of = checks; days = 412; near = 7; ptw = 3; ppe = 2 }

-- ===== src/Mock/Tags/Initial.antt =====
-- assets/js/mock.js, lines 20-39: the tags as the page loads them.
use project_sh_fms.Prelude.{List, [], ◌∷◌, codes}
use project_sh_fms.Number.{Number}
use project_sh_fms.Mock.Tags.{Tag}

module _ (r : Number) where
  open r use {lit, neg}

  -- `TAGS[0]`
  abbrev pub first_tag : Tag r
  first_tag = record {
    tag = codes "MIX01_TT101";
    desc = codes "배합 1호기 반응조 온도";
    unit = codes "℃";
    pv = lit 486 1;
    sp = lit 48 0;
    lo = lit 44 0;
    hi = lit 52 0;
    lo_lo = lit 40 0;
    hi_hi = lit 56 0;
    src = codes "LS XGT";
  }

  abbrev pub initial_tags : List (Tag r)
  initial_tags =
      first_tag
      ∷ record {
        tag = codes "MIX01_PT102";
        desc = codes "배합 1호기 내압";
        unit = codes "bar";
        pv = lit 102 2;
        sp = lit 10 1;
        lo = lit 85 2;
        hi = lit 125 2;
        lo_lo = lit 7 1;
        hi_hi = lit 15 1;
        src = codes "LS XGT";
      }
      ∷ record {
        tag = codes "MIX01_ST103";
        desc = codes "배합 1호기 교반속도";
        unit = codes "rpm";
        pv = lit 60 0;
        sp = lit 60 0;
        lo = lit 52 0;
        hi = lit 68 0;
        lo_lo = lit 40 0;
        hi_hi = lit 80 0;
        src = codes "LS XGT";
      }
      ∷ record {
        tag = codes "MIX02_TT201";
        desc = codes "배합 2호기 반응조 온도";
        unit = codes "℃";
        pv = lit 638 1;
        sp = lit 62 0;
        lo = lit 58 0;
        hi = lit 66 0;
        lo_lo = lit 54 0;
        hi_hi = lit 70 0;
        src = codes "LS XGT";
      }
      ∷ record {
        tag = codes "MIX02_PT202";
        desc = codes "배합 2호기 내압";
        unit = codes "bar";
        pv = lit 108 2;
        sp = lit 10 1;
        lo = lit 85 2;
        hi = lit 125 2;
        lo_lo = lit 7 1;
        hi_hi = lit 15 1;
        src = codes "LS XGT";
      }
      ∷ record {
        tag = codes "MIX02_ST203";
        desc = codes "배합 2호기 교반속도";
        unit = codes "rpm";
        pv = lit 138 0;
        sp = lit 140 0;
        lo = lit 128 0;
        hi = lit 152 0;
        lo_lo = lit 110 0;
        hi_hi = lit 170 0;
        src = codes "LS XGT";
      }
      ∷ record {
        tag = codes "CT01_TT301";
        desc = codes "코팅 1라인 건조로 온도";
        unit = codes "℃";
        pv = lit 1184 1;
        sp = lit 120 0;
        lo = lit 112 0;
        hi = lit 128 0;
        lo_lo = lit 105 0;
        hi_hi = lit 138 0;
        src = codes "Mitsubishi MC";
      }
      ∷ record {
        tag = codes "CT01_SP302";
        desc = codes "코팅 1라인 라인속도";
        unit = codes "m/min";
        pv = lit 242 1;
        sp = lit 25 0;
        lo = lit 20 0;
        hi = lit 28 0;
        lo_lo = lit 15 0;
        hi_hi = lit 32 0;
        src = codes "Mitsubishi MC";
      }
      ∷ record {
        tag = codes "CT01_TH303";
        desc = codes "코팅 1라인 도포두께";
        unit = codes "mm";
        pv = lit 124 3;
        sp = lit 120 3;
        lo = lit 114 3;
        hi = lit 126 3;
        lo_lo = lit 112 3;
        hi_hi = lit 128 3;
        src = codes "Vision";
      }
      ∷ record {
        tag = codes "CT02_TT401";
        desc = codes "코팅 2라인 건조로 온도";
        unit = codes "℃";
        pv = lit 1412 1;
        sp = lit 120 0;
        lo = lit 112 0;
        hi = lit 128 0;
        lo_lo = lit 105 0;
        hi_hi = lit 138 0;
        src = codes "Mitsubishi MC";
      }
      ∷ record {
        tag = codes "CT02_SP402";
        desc = codes "코팅 2라인 라인속도";
        unit = codes "m/min";
        pv = lit 118 1;
        sp = lit 25 0;
        lo = lit 20 0;
        hi = lit 28 0;
        lo_lo = lit 15 0;
        hi_hi = lit 32 0;
        src = codes "Mitsubishi MC";
      }
      ∷ record {
        tag = codes "AS01_CY501";
        desc = codes "조립 1라인 사이클타임";
        unit = codes "s";
        pv = lit 412 2;
        sp = lit 40 1;
        lo = lit 36 1;
        hi = lit 46 1;
        lo_lo = lit 32 1;
        hi_hi = lit 52 1;
        src = codes "Modbus TCP";
      }
      ∷ record {
        tag = codes "AS02_CY601";
        desc = codes "조립 2라인 사이클타임";
        unit = codes "s";
        pv = lit 402 2;
        sp = lit 40 1;
        lo = lit 36 1;
        hi = lit 46 1;
        lo_lo = lit 32 1;
        hi_hi = lit 52 1;
        src = codes "Modbus TCP";
      }
      ∷ record {
        tag = codes "UTL_AIR701";
        desc = codes "압축공기 공급압";
        unit = codes "bar";
        pv = lit 64 1;
        sp = lit 65 1;
        lo = lit 60 1;
        hi = lit 70 1;
        lo_lo = lit 55 1;
        hi_hi = lit 75 1;
        src = codes "Modbus TCP";
      }
      ∷ record {
        tag = codes "UTL_CHW702";
        desc = codes "냉각수 공급온도";
        unit = codes "℃";
        pv = lit 126 1;
        sp = lit 12 0;
        lo = lit 10 0;
        hi = lit 15 0;
        lo_lo = lit 8 0;
        hi_hi = lit 18 0;
        src = codes "Modbus TCP";
      }
      ∷ record {
        tag = codes "UTL_STM703";
        desc = codes "스팀 헤더압";
        unit = codes "bar";
        pv = lit 78 1;
        sp = lit 80 1;
        lo = lit 72 1;
        hi = lit 86 1;
        lo_lo = lit 65 1;
        hi_hi = lit 92 1;
        src = codes "Modbus TCP";
      }
      ∷ record {
        tag = codes "ENV_VOC801";
        desc = codes "A동 VOC 농도";
        unit = codes "ppm";
        pv = lit 184 1;
        sp = lit 0 0;
        lo = neg (lit 1 0);
        hi = lit 50 0;
        lo_lo = neg (lit 1 0);
        hi_hi = lit 100 0;
        src = codes "가스검지기";
      }
      ∷ record {
        tag = codes "ENV_O2802";
        desc = codes "B동 산소 농도";
        unit = codes "%";
        pv = lit 208 1;
        sp = lit 21 0;
        lo = lit 195 1;
        hi = lit 23 0;
        lo_lo = lit 18 0;
        hi_hi = lit 25 0;
        src = codes "가스검지기";
      }
      ∷ []

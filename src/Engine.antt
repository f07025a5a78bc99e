-- ===== src/Engine.antt =====
-- src/SHFms.Server/Models/AlarmModels.cs, TagModels.cs and Services/AlarmEngine.cs: the alarms of
-- the gateway. This file has the data; the children have the operations and what they keep.
pub mod Classify
pub mod Store
pub mod Evaluate
pub mod Operate
use project_sh_fms.Prelude.{ℕ, Bool, true, false, List, Option, Text, text_eq}
use project_sh_fms.Number.{Number}

-- AlarmState
pub data State : Type 0 where
  normal unack_active ack_active unack_cleared shelved : State

-- AlarmType
pub data Kind : Type 0 where
  pvhh pvh pvl pvll bad dev : Kind

-- What the runtime supplies: the case folding of OrdinalIgnoreCase, the date `yyMMdd` of an
-- instant, and the formats `0.##` and `0000`.
pub record Runtime (r : Number) : Type 0 where
  pub fold : Text → Text
  pub stamp : ℕ → Text
  pub show : r.Num → Text
  pub four : ℕ → Text

module _ (r : Number) where
  open r use {Num}

  -- TagValue
  pub record Sample : Type 0 where
    pub tag : Text
    pub value : Num
    pub quality : Text
    pub ts : ℕ

  -- TagMeta
  pub record Meta : Type 0 where
    pub tag : Text
    pub desc : Text
    pub unit : Text
    pub area : Text
    pub lo_lo : Option Num
    pub lo : Option Num
    pub hi : Option Num
    pub hi_hi : Option Num
    pub deadband : Num
    pub priority : ℕ

  -- What of an AlarmEvent is set when it is raised and never changes. The history holds the same
  -- objects as the active alarms, and this is what the model keeps of them there.
  pub record Raised : Type 0 where
    pub id : Text
    pub tag : Text
    pub area : Text
    pub priority : ℕ
    pub kind : Kind
    pub message : Text
    pub raised_at : ℕ
    pub limit : Num

  -- AlarmEvent, as an active alarm.
  pub record Event : Type 0 where
    pub raised : Raised
    pub acked_at : Option ℕ
    pub acked_by : Option Text
    pub cleared_at : Option ℕ
    pub state : State
    pub shelf_expires_at : Option ℕ
    pub value : Num

  -- AlarmEngine. The dictionary of active alarms is a list of tags and events; instants are ticks.
  pub record Engine : Type 0 where
    pub active : List (Text × Event)
    pub history : List Raised
    pub suppressed : List Text
    pub seq : ℕ

-- Equality of texts that ignores case.
abbrev pub same_folded : (Text → Text) → Text → Text → Bool
same_folded fold s t = text_eq (fold s) (fold t)

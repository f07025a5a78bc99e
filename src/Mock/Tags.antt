-- ===== src/Mock/Tags.antt =====
-- assets/js/mock.js, lines 18-45: the tags of the plant and the state that a screen colours.
pub mod Severity
pub mod Initial
use project_sh_fms.Prelude.{
  ℕ, Bool, true, false, ◌||◌, List, [], ◌∷◌, Option, none, some, Text, codes, if◌then◌else◌, first,
  text_eq,
}
use project_sh_fms.Number.{Number}

module _ (r : Number) where
  open r use {Num, lit, neg, le}

  pub record Tag : Type 0 where
    pub tag : Text
    pub desc : Text
    pub unit : Text
    pub pv : Num
    pub sp : Num
    pub lo : Num
    pub hi : Num
    pub lo_lo : Num
    pub hi_hi : Num
    pub src : Text

pub data TagState : Type 0 where
  alarm warn ok : TagState

module _ (r : Number) where
  open r use {Num, lit, neg, le}

  unfoldable pub tag_state : Tag r → TagState
  tag_state t =
      if le t.hi_hi t.pv || le t.pv t.lo_lo
      then alarm
      else if le t.hi t.pv || le t.pv t.lo
      then warn
      else ok

-- ===== src/Engine/Classify.antt =====
-- AlarmEngine.cs: Classify, PriorityOf, Describe; TagStore.cs: StateOf.
use project_sh_fms.Prelude.{
  ℕ, Bool, true, false, not, [], ◌∷◌, ◌++◌, Option, none, some, Text, codes, if◌then◌else◌, ◌≡◌,
  arith,
}
use project_sh_fms.Number.{Number}
use project_sh_fms.Engine.{Kind, pvhh, pvh, pvl, pvll, bad, dev, Runtime, Sample, Meta, same_folded}

module _ (r : Number) (t : Runtime r) where
  open r use {Num, le, lit}

  abbrev pub is_good : Sample r → Bool
  is_good v = same_folded t.fold v.quality (codes "Good")

  -- `m.Hi is { } h && v >= h`
  abbrev pub reaches : Option Num → Num → Option Num
  reaches none v = none
  reaches (some h) v = if le h v then some h else none

  -- `m.Lo is { } l && v <= l`
  abbrev pub sinks_to : Option Num → Num → Option Num
  sinks_to none v = none
  sinks_to (some l) v = if le v l then some l else none

  -- The first test that passes.
  abbrev pub or_next : Kind → Option Num → Option (Kind × Num) → Option (Kind × Num)
  or_next k (some l) rest = some (k, l)
  or_next k none rest = rest

  unfoldable pub classify : Sample r → Meta r → Option (Kind × Num)
  classify v m =
      if not (is_good v)
      then some (bad, lit 0 0)
      else or_next pvhh (reaches m.hi_hi v.value) (
          or_next pvll (sinks_to m.lo_lo v.value)
            (or_next pvh (reaches m.hi v.value) (or_next pvl (sinks_to m.lo v.value) none)))

  unfoldable pub priority_of : Kind → Meta r → ℕ
  priority_of pvhh m = 1
  priority_of pvll m = 1
  priority_of bad m = 2
  priority_of _ m = m.priority

  -- ` + m.Unit`, where there is one.
  abbrev pub unit_of : Text → Text
  unit_of [] = []
  unit_of (c ∷ s) = b' ' ∷ c ∷ s

  abbrev pub with_limit : Text → Text → Meta r → Num → Num → Text
  with_limit what mark m v l =
      m.desc
      ++ (what
          ++ (t.show v
              ++ (unit_of m.unit ++ (mark ++ (t.show l ++ (unit_of m.unit ++ codes ")"))))))

  unfoldable pub describe : Kind → Meta r → Num → Num → Text
  describe pvhh m v l = with_limit (codes " 상한상한 초과 (") (codes " / HH ") m v l
  describe pvh m v l = with_limit (codes " 상한 초과 (") (codes " / H ") m v l
  describe pvl m v l = with_limit (codes " 하한 미달 (") (codes " / L ") m v l
  describe pvll m v l = with_limit (codes " 하한하한 미달 (") (codes " / LL ") m v l
  describe bad m v l = m.desc ++ codes " 통신 품질 불량 — 값 신뢰 불가"
  describe dev m v l = m.desc ++ codes " 설정값 편차"

-- What a screen is told of a tag: "ok", "warn", "alarm" or "bad".
pub data Shade : Type 0 where
  fine warning alarming distrusted : Shade

module _ (r : Number) (t : Runtime r) where
  open r use {Num, le}

  abbrev pub holds : Option Num → Bool
  holds none = false
  holds (some l) = true

  -- TagStore.StateOf
  abbrev pub shade_by : Sample r → Option (Meta r) → Shade
  shade_by v none = fine
  shade_by v (some m) =
      if holds (reaches r t m.hi_hi v.value)
      then alarming
      else if holds (sinks_to r t m.lo_lo v.value)
      then alarming
      else if holds (reaches r t m.hi v.value)
      then warning
      else if holds (sinks_to r t m.lo v.value)
      then warning
      else fine

  unfoldable pub state_of : Sample r → Option (Meta r) → Shade
  state_of v m = if not (is_good r t v) then distrusted else shade_by v m

  -- The colour that an alarm of the engine asks for.
  abbrev pub shade_of : Option (Kind × Num) → Shade
  shade_of none = fine
  shade_of (some (bad, l)) = distrusted
  shade_of (some (pvhh, l)) = alarming
  shade_of (some (pvll, l)) = alarming
  shade_of (some (_, l)) = warning

  -- The colour that the tag store gives a value whose tag is configured is the one that the alarm
  -- engine's classification of the value asks for, on every combination of limits and qualities.
  pub state_of-classify :
      (v : Sample r) (m : Meta r) → state_of v (some m) ≡ shade_of (classify r t v m)
  unfolding state_of classify
  state_of-classify v m = ground arith

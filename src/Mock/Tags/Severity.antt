-- ===== src/Mock/Tags/Severity.antt =====
-- How the state of a tag follows its value.
use Prim.Native.Nat.{◌≤◌}
use project_sh_fms.Prelude.{ℕ, ◌≡◌, true, false, arith, ◌⊎◌, inl, inr}
use project_sh_fms.Number.{Number, IsOrdered}
use project_sh_fms.Mock.Tags.{Tag, TagState, alarm, warn, ok, tag_state}

abbrev pub severity : TagState → ℕ
severity ok = 0
severity warn = 1
severity alarm = 2

module _ (r : Number) (o : IsOrdered r) where
  open r use {Num, le}

  -- From `v` to `w` a value moves out: up from the upper limit of warning, or down from the lower.
  abbrev pub Outward : Tag r → Num → Num → Type 0
  Outward t v w = ((le t.hi v ≡ true) × (le v w ≡ true)) ⊎ ((le v t.lo ≡ true) × (le w v ≡ true))

  -- With limits set in order, a value that is past a limit of warning and moves further out never
  -- gets a milder state.
  pub severity-Outward :
      (t : Tag r) (v w : Num)
      → le t.hi t.lo_lo ≡ false
      → le t.hi_hi t.lo ≡ false
      → Outward t v w
      → severity (tag_state r (record t { pv = v })) ≤ severity (tag_state r (record t { pv = w }))
  unfolding tag_state
  severity-Outward t v w a b (inl h) =
      ground (arith, o.trans t.hi v t.lo_lo, o.trans t.hi v w, o.trans t.hi_hi v w)
  severity-Outward t v w a b (inr h) =
      ground (arith, o.trans t.hi_hi v t.lo, o.trans w v t.lo, o.trans w v t.lo_lo)

-- ===== src/Mock/Simulator.antt =====
-- assets/js/mock.js, lines 214-236: the ticks of the simulator that move the tags' values. The
-- state is the seed of the generator, the tags and the world that the listeners of a tick change.
pub mod Frame
use project_sh_fms.Prelude.{
  ℕ, zero, suc, ◌*◌, ◌-◌, Bool, true, false, List, [], ◌∷◌, ◌++◌, Option, none, some, Text, codes,
  if◌then◌else◌, first, text_eq, ◌==◌,
}
use project_sh_fms.Number.{Number}
use project_sh_fms.Js.Strings.{begins}
use project_sh_fms.Mock.Random.{next_seed}
use project_sh_fms.Mock.Format.{Date, hhmm}
use project_sh_fms.Mock.Tags.{Tag}

module _ (r : Number) where
  open r use {Num, lit, neg, add, sub, mul, div, abs, max, to_fixed, to_number}

  -- `+x.toFixed(k)`
  abbrev pub fixed : Num → ℕ → Num
  fixed x k = to_number (to_fixed x k)

  -- The value of `rnd()` where the draw leaves this seed.
  abbrev pub rnd_value : ℕ → Num
  rnd_value seed = div (lit seed 0) (lit 2147483647 0)

  -- The value that a tick gives a tag of the stopped line.
  unfoldable pub stopped_value : Tag r → ℕ → Num
  stopped_value t seed =
      if text_eq t.tag (codes "CT02_TT401")
      then fixed (add (sub t.pv (lit 6 2)) (mul (sub (rnd_value seed) (lit 5 1)) (lit 1 1))) 2
      else fixed (max (lit 0 0) (sub t.pv (lit 12 2))) 2

  unfoldable pub digits_of : Tag r → ℕ
  digits_of t =
      if text_eq t.unit (codes "mm") then 4 else if text_eq t.unit (codes "bar") then 3 else 2

  -- The value that a tick gives any other tag: pulled to the set point, with noise.
  unfoldable pub moving_value : Tag r → ℕ → Num
  unfolding digits_of
  moving_value t seed =
      let span = abs (sub t.hi t.lo) in
      let pull = mul (sub t.sp t.pv) (lit 5 2) in
      let noise = mul (mul (sub (rnd_value seed) (lit 5 1)) span) (lit 35 3) in
      fixed (add (add t.pv pull) noise) (digits_of t)

  -- `t.tag.indexOf('CT02') === 0`
  unfoldable pub is_stopped : Tag r → Bool
  is_stopped t = begins (codes "CT02") t.tag

  -- Whether the tick of a tag draws a random number.
  unfoldable pub is_drawing : Tag r → Bool
  unfolding is_stopped
  is_drawing t = if is_stopped t then text_eq t.tag (codes "CT02_TT401") else true

  unfoldable pub tick_seed : Tag r → ℕ → ℕ
  unfolding is_drawing
  tick_seed t seed = if is_drawing t then next_seed seed else seed

  unfoldable pub tick_tag : Tag r → ℕ → Tag r
  unfolding is_stopped stopped_value moving_value
  tick_tag t seed = record t {
    pv = if is_stopped t then stopped_value t seed else moving_value t seed;
  }

  -- The loop over the tags: each draws, if it does, before its value is set.
  unfoldable pub tick_tags : List (Tag r) → ℕ → List (Tag r) × ℕ
  tick_tags [] seed = ([], seed)
  tick_tags (t ∷ ts) seed =
      let seed' = tick_seed t seed in
      let (ts', last) = tick_tags ts seed' in (tick_tag t seed' ∷ ts', last)

  -- A listener of ticks is given the tags themselves, may draw numbers of the generator by way of
  -- Mock.history, and changes a world of its own; it gives the tags, the seed and the world as it
  -- leaves them, or as they are where it throws (`false`).
  abbrev pub Listener : Type 0 → Type 0
  Listener W = List (Tag r) → ℕ → W → List (Tag r) × ℕ × W × Bool

  pub record Sim (W : Type 0) : Type 0 where
    pub tags : List (Tag r)
    pub seed : ℕ
    pub world : W

  -- `try { fn(TAGS); } catch (e) { }`
  abbrev pub call : {W : Type 0} → Listener W → Sim W → Sim W
  call fn s =
      let (ts, seed, w, done) = fn s.tags s.seed s.world in
      record { tags = ts; seed = seed; world = w }

  unfoldable pub notify : {W : Type 0} → List (Listener W) → Sim W → Sim W
  notify [] s = s
  notify (fn ∷ fns) s = notify fns (call fn s)

  unfoldable pub step : {W : Type 0} → List (Listener W) → Sim W → Sim W
  step fns s =
      let (ts, seed) = tick_tags s.tags s.seed in notify fns (record s { tags = ts; seed = seed })

  unfoldable pub steps : {W : Type 0} → List (Listener W) → ℕ → Sim W → Sim W
  steps fns zero s = s
  steps fns (suc n) s = steps fns n (step fns s)

  -- `Mock.tag(t)`, undefined where no tag has the name.
  unfoldable pub tag : List (Tag r) → Text → Option (Tag r)
  tag ts name = first (λ x. text_eq x.tag name) ts

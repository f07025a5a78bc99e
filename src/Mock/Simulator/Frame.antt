-- ===== src/Mock/Simulator/Frame.antt =====
-- What a tick leaves alone, and how far it moves the generator.
use project_sh_fms.Prelude.{ℕ, ◌≡◌, List, map}
use project_sh_fms.Number.{Number}
use project_sh_fms.Mock.Tags.{Tag}
use project_sh_fms.Mock.Tags.Initial.{initial_tags}
use project_sh_fms.Mock.Simulator.{Listener, Sim}

module _ (r : Number) where
  -- A tag without its value.
  abbrev pub frame : Tag r → Tag r
  frame t = record t { pv = r.lit 0 0 }

  module _ {W : Type 0} where
    -- A listener that draws no number and changes of the tags no more than their values.
    abbrev pub IsReader : Listener r W → Type 0
    IsReader fn =
        (ts : List (Tag r)) (seed : ℕ) (w : W)
        → (map frame (fn ts seed w).0 ≡ map frame ts) × ((fn ts seed w).1 ≡ seed)

    -- The tags of the page, up to their values.
    abbrev pub IsPlant : Sim r W → Type 0
    IsPlant s = map frame s.tags ≡ map frame (initial_tags r)

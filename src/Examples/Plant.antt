-- ===== src/Examples/Plant.antt =====
-- A tick, a trend and a clock over the page's own tags, with numbers in thousandths.
use project_sh_fms.Prelude.{ℕ, ◌+◌, ◌/◌, ◌≡◌, refl, true, false, [], ◌∷◌, codes}
use project_sh_fms.Mock.Random.{initial_seed, next_seed}
use project_sh_fms.Mock.Format.{Date, hms, pad}
use project_sh_fms.Mock.Tags.{warn, alarm, tag_state}
use project_sh_fms.Mock.Tags.Initial.{initial_tags, first_tag}
use project_sh_fms.Mock.Simulator.{Sim, step, steps, Listener, notify}
use project_sh_fms.Examples.Thousandths.{thousandths}

abbrev evening : Date
evening = record { year = 2026; month = 8; day = 23; hours = 19; minutes = 5; seconds = 0 }

-- A local clock at UTC that knows only the time of day.
abbrev pub local : ℕ → Date
local ms = record {
  year = 2026;
  month = 8;
  day = 23;
  hours = ms / 3600000;
  minutes = ms / 60000;
  seconds = ms / 1000;
}

evening_text : hms evening ≡ codes "19:05:00"
unfolding hms pad
evening_text = refl

first_states :
    (tag_state thousandths (record (first_tag thousandths) { pv = 53000 }) ≡ warn)
    × (tag_state thousandths (record (first_tag thousandths) { pv = 57000 }) ≡ alarm)
unfolding tag_state
first_states = (refl, refl)

abbrev sim : Sim thousandths ℕ
sim = record { tags = initial_tags thousandths; seed = initial_seed; world = 0 }

-- A listener that counts its calls, one that throws, and one that also draws a number.
abbrev counting : Listener thousandths ℕ
counting ts seed w = (ts, seed, w + 1, true)

abbrev throwing : Listener thousandths ℕ
throwing ts seed w = (ts, seed, w, false)

abbrev drawing : Listener thousandths ℕ
drawing ts seed w = (ts, next_seed seed, w, true)

listeners_run : (steps thousandths (throwing ∷ counting ∷ []) 3 sim).world ≡ 3
unfolding steps step notify
listeners_run = refl

drawing_is_seen : (notify thousandths (drawing ∷ []) sim).seed ≡ next_seed initial_seed
unfolding notify
drawing_is_seen = refl

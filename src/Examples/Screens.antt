-- ===== src/Examples/Screens.antt =====
-- The video viewer with a container that gets two cameras in turn, and a line chart.
use project_sh_fms.Prelude.{ℕ, Bool, true, List, [], ◌∷◌, some, none, Text, codes}
use project_sh_fms.Mock.Cameras.{Camera, camera}
use project_sh_fms.Cctv.{Happening, attaching, framing, happen_all, new_viewer, drawn}
use project_sh_fms.Cctv.Frames.{HostsApart, drawn-HostsApart}
use project_sh_fms.Chart.{Axes, Options, Decades}
use project_sh_fms.Chart.Bars.{BarOptions}
use project_sh_fms.Examples.Thousandths.{thousandths}

abbrev pub gate_camera : Camera
gate_camera = camera (codes "CAM-09") (codes "Gate") (codes "외곽") true true (codes "-")

abbrev tank_camera : Camera
tank_camera = camera (codes "CAM-01") (codes "Tank") (codes "A동") true true (codes "-")

abbrev everywhere : ℕ → Bool
everywhere h = true

abbrev day : List (Happening thousandths)
day =
    attaching 4 320000 gate_camera
    ∷ framing everywhere
    ∷ attaching 4 320000 tank_camera
    ∷ framing everywhere
    ∷ []

drawn-HostsApart_example :
    HostsApart thousandths
      (drawn thousandths everywhere (happen_all thousandths day (new_viewer thousandths)))
drawn-HostsApart_example = drawn-HostsApart thousandths day everywhere

abbrev some_axes : Axes thousandths
some_axes = record { iw = 576000; ih = 150000; low = 0; high = 100000 }

abbrev names : List Text
names = codes "a" ∷ codes "b" ∷ codes "c" ∷ []

abbrev decades : Decades thousandths
decades = record { decade_below = λ x. 1000 }

abbrev trend : Options thousandths
trend = record {
  labels = some names;
  series = record { values = 1000 ∷ 2000 ∷ 3000 ∷ []; dots = true } ∷ [];
  h = none;
  max = none;
  min = none;
  area = true;
  refs = record { v = 2500; label = none } ∷ [];
}

abbrev sales : BarOptions thousandths
sales = record {
  labels = names;
  values = 1000 ∷ 2000 ∷ 3000 ∷ [];
  h = none;
  max = some 4000;
  show_value = true;
}

abbrev printed : ℕ → Text
printed x = codes "x"

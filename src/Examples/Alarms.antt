-- ===== src/Examples/Alarms.antt =====
-- The alarms of a page, a visit to the alarm page, and the frame round it.
use Prim.Native.Nat.{◌≤◌}
use project_sh_fms.Prelude.{
  ◌≡◌, refl, ◌⊎◌, true, false, List, [], ◌∷◌, some, none, Text, codes, length, All, tally, text_eq,
}
use project_sh_fms.Auth.{Browser, current, can_operate}
use project_sh_fms.Mock.Format.{pad, ymd}
use project_sh_fms.Mock.Alarms.{Alarm, alarms, alarm_load, raw_alarm, alarm_id}
use project_sh_fms.Mock.Alarms.Ids.{UniqueIds, alarms_made}
use project_sh_fms.AlarmPage.{Click, row, shelf_selected, ack, click, visit, change_selected, is_in}
use project_sh_fms.AlarmPage.Handlers.{AllGrow, visit-AllGrow, click-locked}
use project_sh_fms.AlarmPage.Unique.{IsSound, is_open, visit-IsSound}
use project_sh_fms.AlarmPage.Table.{un, sh, figures, table}
use project_sh_fms.AlarmPage.Views.{figures-table}
use project_sh_fms.Shell.{build, Screen}
use project_sh_fms.Shell.Frame.{Framed, build_frames}
use project_sh_fms.Examples.Json.{platform}
use project_sh_fms.Examples.Session.{fresh_tab, operator_tab}
use project_sh_fms.Examples.Plant.{local}

abbrev named : Text → Alarm → Alarm
named k a = record a { id = k }

abbrev first_alarm : Alarm
first_alarm =
    named (codes "A")
      (raw_alarm 1 (codes "CT02_TT401") (codes "B동") [] (codes "PVHH") false false 4)

abbrev second_alarm : Alarm
second_alarm =
    named (codes "B")
      (raw_alarm 2 (codes "UTL_AIR701") (codes "유틸") [] (codes "PVL") false false 18)

abbrev two_alarms : List Alarm
two_alarms = first_alarm ∷ second_alarm ∷ []

abbrev clicks : List (Browser × Click)
clicks =
    (fresh_tab, row ack (codes "A")) ∷ (operator_tab, shelf_selected true (codes "B" ∷ [])) ∷ []

made_id :
    alarm_id (record { year = 2026; month = 8; day = 23; hours = 0; minutes = 0; seconds = 0 }) 3
    ≡ codes "AL-260923-97"
unfolding alarm_id ymd pad
made_id = refl

load_of_the_day : alarm_load.day ≡ 147
unfolding alarm_load
load_of_the_day = refl

alarms_made_example :
    let (xs, kept) = alarms local none 7200000 in
    UniqueIds xs × ((alarms local kept 7300000).0 ≡ xs) × ((alarms local kept 7300000).1 ≡ kept)
alarms_made_example = alarms_made local 7200000 7300000

visit_run :
    visit platform clicks two_alarms
    ≡ first_alarm ∷ record second_alarm { shelved = true; ack = true } ∷ []
unfolding visit click can_operate current change_selected is_in text_eq
visit_run = refl

visit-AllGrow_example : AllGrow two_alarms (visit platform clicks two_alarms)
visit-AllGrow_example = visit-AllGrow platform clicks two_alarms

click-locked_example : (click platform fresh_tab (row ack (codes "A")) two_alarms).0 ≡ two_alarms
unfolding can_operate current
click-locked_example = click-locked platform fresh_tab (row ack (codes "A")) two_alarms refl

visit-IsSound_example :
    All IsSound (visit platform clicks two_alarms)
    × (tally is_open (visit platform clicks two_alarms) ≤ tally is_open two_alarms)
visit-IsSound_example = visit-IsSound platform clicks two_alarms (refl, (refl, tt))

figures-table_example :
    ((figures alarm_load two_alarms).unack.value ≡ length (table none none un two_alarms))
    × ((figures alarm_load two_alarms).p1.value ≡ length (table (some 1) none un two_alarms))
    × ((figures alarm_load two_alarms).shelf.value ≡ length (table none none sh two_alarms))
figures-table_example = figures-table alarm_load two_alarms

build_frames_example :
    ((current platform operator_tab ≡ none)
      × ((build platform (codes "cctv") (some two_alarms) operator_tab).0 ≡ none))
    ⊎ ((w : Screen) × ((build platform (codes "cctv") (some two_alarms) operator_tab).0 ≡ some w)
        × Framed platform (codes "cctv") two_alarms alarm_load operator_tab w)
build_frames_example = build_frames platform (codes "cctv") two_alarms alarm_load operator_tab

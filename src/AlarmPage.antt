-- ===== src/AlarmPage.antt =====
-- app/alarm.html, its script: the figures at the top, the filtered table, and the handlers of the
-- buttons of a row and of the whole selection. The page's state is the list `AL` of alarms.
pub mod Handlers
pub mod Unique
pub mod Table
pub mod Views
use project_sh_fms.Prelude.{
  ℕ, zero, suc, ◌+◌, ◌/◌, ◌%◌, Bool, true, false, not, ◌&&◌, ◌||◌, List, [], ◌∷◌, ◌++◌, map, Option,
  none, some, Text, codes, if◌then◌else◌, ◌==◌, ltb, first, select, tally, length, text_eq,
}
use project_sh_fms.Js.Decimal.{decimal}
use project_sh_fms.Auth.{Browser, Platform, can_operate}
use project_sh_fms.Mock.Alarms.{Alarm, Load}

-- What a handler shows: nothing, an alarm's details, a message, or an exception of the script.
pub data Notice : Type 0 where
  silent read_only nothing_selected thrown : Notice
  details : Alarm → Notice

-- `data-act` of a row's button.
pub data Act : Type 0 where
  detail ack shelf : Act

-- `ids.indexOf(k) > -1`
unfoldable pub is_in : List Text → Text → Bool
is_in [] k = false
is_in (i ∷ ids) k = text_eq i k || is_in ids k

-- `a.ack = true;`
abbrev pub acked : Alarm → Alarm
acked a = record a { ack = true }

-- `a.shelved = true; a.ack = true;`
abbrev pub put_away : Alarm → Alarm
put_away a = record a { shelved = true; ack = true }

-- A change of `AL.filter(function (x) { return x.id === k; })[0]`.
unfoldable pub change_first : (Alarm → Alarm) → Text → List Alarm → List Alarm
change_first f k [] = []
change_first f k (a ∷ xs) = if text_eq a.id k then f a ∷ xs else a ∷ change_first f k xs

-- A change of each alarm whose id is selected.
unfoldable pub change_selected : (Alarm → Alarm) → List Text → List Alarm → List Alarm
change_selected f ids [] = []
change_selected f ids (a ∷ xs) = (if is_in ids a.id then f a else a) ∷ change_selected f ids xs

abbrev pub change_of : Act → Alarm → Alarm
change_of ack a = acked a
change_of _ a = put_away a

abbrev pub found : Text → List Alarm → Option Alarm
found k xs = first (λ a. text_eq a.id k) xs

-- What a click does once the right to operate is known; a property of undefined throws.
unfoldable pub row_act : Bool → Act → Text → Option Alarm → List Alarm → List Alarm × Notice
row_act can detail k none xs = (xs, thrown)
row_act can detail k (some a) xs = (xs, details a)
row_act can act k none xs = (xs, if can then thrown else read_only)
row_act can act k (some a) xs =
    if can then (change_first (change_of act) k xs, silent) else (xs, read_only)

abbrev pub is_none_selected : List Text → Bool
is_none_selected [] = true
is_none_selected (i ∷ ids) = false

module _ (p : Platform) (b : Browser) where
  -- `b.onclick` of a row's button.
  unfoldable pub click_row : Act → Text → List Alarm → List Alarm × Notice
  unfolding row_act
  click_row act k xs = row_act (can_operate p b) act k (found k xs) xs

  -- `btn-ack`
  unfoldable pub click_ack : List Text → List Alarm → List Alarm × Notice
  click_ack ids xs =
      if not (can_operate p b)
      then (xs, read_only)
      else if is_none_selected ids
      then (xs, nothing_selected)
      else (change_selected acked ids xs, silent)

  -- `btn-shelf`, with the answer to its question.
  unfoldable pub click_shelf : Bool → List Text → List Alarm → List Alarm × Notice
  click_shelf confirmed ids xs =
      if not (can_operate p b)
      then (xs, read_only)
      else if is_none_selected ids
      then (xs, nothing_selected)
      else if not confirmed
      then (xs, silent)
      else (change_selected put_away ids xs, silent)

-- A click on the page.
pub data Click : Type 0 where
  row : Act → Text → Click
  ack_selected : List Text → Click
  shelf_selected : Bool → List Text → Click

module _ (p : Platform) where
  unfoldable pub click : Browser → Click → List Alarm → List Alarm × Notice
  unfolding click_row click_ack click_shelf
  click b (row act k) xs = click_row p b act k xs
  click b (ack_selected ids) xs = click_ack p b ids xs
  click b (shelf_selected confirmed ids) xs = click_shelf p b confirmed ids xs

  -- The clicks of a visit to the page, each with the tab as it is then.
  unfoldable pub visit : List (Browser × Click) → List Alarm → List Alarm
  visit [] xs = xs
  visit ((b, c) ∷ cs) xs = visit cs (click b c xs).0

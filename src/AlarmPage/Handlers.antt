-- ===== src/AlarmPage/Handlers.antt =====
-- What the clicks of a visit may do to the alarms.
use project_sh_fms.Prelude.{
  ◌≡◌, refl, Bool, true, false, not, List, [], ◌∷◌, Option, none, some, Text, if◌then◌else◌,
  text_eq, Bool-cases, inl, inr,
}
use project_sh_fms.Auth.{Browser, Platform, can_operate}
use project_sh_fms.Mock.Alarms.{Alarm}
use project_sh_fms.AlarmPage.{
  Notice, Act, detail, ack, Click, row, ack_selected, shelf_selected, is_in, acked, put_away,
  change_first, change_selected, change_of, found, row_act, click, visit, is_none_selected,
}

-- What clicks have made of an alarm: nothing, an acknowledged one, or one put on the shelf, which
-- is acknowledged too.
pub data Grows (a : Alarm) : Alarm → Type 0 where
  kept : Grows a a
  now_acked : Grows a (acked a)
  now_put_away : Grows a (put_away a)

-- The same alarms in the same order, each grown.
abbrev pub AllGrow : List Alarm → List Alarm → Type 0
AllGrow [] [] = Unit
AllGrow [] (a ∷ xs) = ⊥
AllGrow (a ∷ xs) [] = ⊥
AllGrow (a ∷ xs) (a' ∷ xs') = Grows a a' × AllGrow xs xs'

Grows-trans : {a b c : Alarm} → Grows a b → Grows b c → Grows a c
Grows-trans kept h = h
Grows-trans now_acked kept = now_acked
Grows-trans now_acked now_acked = now_acked
Grows-trans now_acked now_put_away = now_put_away
Grows-trans now_put_away kept = now_put_away
Grows-trans now_put_away now_acked = now_put_away
Grows-trans now_put_away now_put_away = now_put_away

Grows-change_of : (act : Act) (a : Alarm) → Grows a (change_of act a)
Grows-change_of ack a = now_acked
Grows-change_of _ a = now_put_away

AllGrow-refl : (xs : List Alarm) → AllGrow xs xs
AllGrow-refl [] = tt
AllGrow-refl (a ∷ xs) = (kept, AllGrow-refl xs)

AllGrow-trans : (xs ys zs : List Alarm) → AllGrow xs ys → AllGrow ys zs → AllGrow xs zs
AllGrow-trans [] [] zs g h = h
AllGrow-trans [] (b ∷ ys) zs g h = elim g [ ]
AllGrow-trans (a ∷ xs) [] zs g h = elim g [ ]
AllGrow-trans (a ∷ xs) (b ∷ ys) [] g h = elim h [ ]
AllGrow-trans (a ∷ xs) (b ∷ ys) (c ∷ zs) g h = (Grows-trans g.0 h.0, AllGrow-trans xs ys zs g.1 h.1)

change_first-AllGrow :
    (f : Alarm → Alarm)
    → ((a : Alarm) → Grows a (f a))
    → (k : Text) (xs : List Alarm) → AllGrow xs (change_first f k xs)
unfolding change_first
change_first-AllGrow f g k [] = tt
change_first-AllGrow f g k (a ∷ xs) = elim (Bool-cases (text_eq a.id k)) [
  | inl e ↦ rw e (g a, AllGrow-refl xs)
  | inr e ↦ rw e (kept, change_first-AllGrow f g k xs)
]

change_selected-AllGrow :
    (f : Alarm → Alarm)
    → ((a : Alarm) → Grows a (f a))
    → (ids : List Text) (xs : List Alarm) → AllGrow xs (change_selected f ids xs)
unfolding change_selected
change_selected-AllGrow f g ids [] = tt
change_selected-AllGrow f g ids (a ∷ xs) = elim (Bool-cases (is_in ids a.id)) [
  | inl e ↦ rw e (g a, change_selected-AllGrow f g ids xs)
  | inr e ↦ rw e (kept, change_selected-AllGrow f g ids xs)
]

row_act-AllGrow :
    (can : Bool) (act : Act) (k : Text) (o : Option Alarm) (xs : List Alarm)
    → AllGrow xs (row_act can act k o xs).0
unfolding row_act
row_act-AllGrow can detail k none xs = AllGrow-refl xs
row_act-AllGrow can detail k (some a) xs = AllGrow-refl xs
row_act-AllGrow can _ k none xs = AllGrow-refl xs
row_act-AllGrow true act k (some a) xs =
    change_first-AllGrow (change_of act) (Grows-change_of act) k xs
row_act-AllGrow false _ k (some a) xs = AllGrow-refl xs

-- Without the right to operate a row's button changes nothing.
row_act-locked :
    (act : Act) (k : Text) (o : Option Alarm) (xs : List Alarm) → (row_act false act k o xs).0 ≡ xs
unfolding row_act
row_act-locked detail k none xs = refl
row_act-locked detail k (some a) xs = refl
row_act-locked _ k none xs = refl
row_act-locked _ k (some a) xs = refl

-- What holds of the lists of both branches holds of the list of the choice.
if_either :
    (P : List Alarm → Type 0) (t : Bool) (x y : List Alarm × Notice)
    → P x.0
    → P y.0
    → P (if t then x else y).0
if_either P true x y h k = h
if_either P false x y h k = k

module _ (p : Platform) where
  click-AllGrow : (b : Browser) (c : Click) (xs : List Alarm) → AllGrow xs (click p b c xs).0
  unfolding click
  click-AllGrow b (row act k) xs = row_act-AllGrow (can_operate p b) act k (found k xs) xs
  click-AllGrow b (ack_selected ids) xs =
      if_either (AllGrow xs) (not (can_operate p b)) _ _ (AllGrow-refl xs) (
        if_either (AllGrow xs) (is_none_selected ids) _ _ (AllGrow-refl xs)
          (change_selected-AllGrow acked (λ a. now_acked) ids xs))
  click-AllGrow b (shelf_selected confirmed ids) xs =
      if_either (AllGrow xs) (not (can_operate p b)) _ _ (AllGrow-refl xs) (
        if_either (AllGrow xs) (is_none_selected ids) _ _ (AllGrow-refl xs) (
          if_either (AllGrow xs) (not confirmed) _ _ (AllGrow-refl xs)
            (change_selected-AllGrow put_away (λ a. now_put_away) ids xs)))

  -- Whatever is clicked in a visit, and whoever is logged in at each click: the list holds the same
  -- alarms in the same order, and each is as it was, or acknowledged, or put on the shelf and
  -- acknowledged. So no click takes an acknowledgement back, and none takes an alarm off the shelf.
  pub visit-AllGrow : (cs : List (Browser × Click)) (xs : List Alarm) → AllGrow xs (visit p cs xs)
  unfolding visit
  visit-AllGrow [] xs = AllGrow-refl xs
  visit-AllGrow ((b, c) ∷ cs) xs =
      AllGrow-trans xs (click p b c xs).0 (visit p cs (click p b c xs).0) (click-AllGrow b c xs)
        (visit-AllGrow cs (click p b c xs).0)

  -- A tab that may not operate changes no alarm, whatever is clicked.
  pub click-locked :
      (b : Browser) (c : Click) (xs : List Alarm)
      → can_operate p b ≡ false
      → (click p b c xs).0 ≡ xs
  unfolding click
  click-locked b (row act k) xs h = rw h (row_act-locked act k (found k xs) xs)
  click-locked b (ack_selected ids) xs h = rw h
  click-locked b (shelf_selected confirmed ids) xs h = rw h

-- ===== src/AlarmPage/Unique.antt =====
-- One row's button against the selection of one row, and what a visit does to the counts.
use Prim.Native.Nat.{◌≤◌}
use project_sh_fms.Prelude.{
  ◌+◌, ◌≡◌, ◌≢◌, refl, sym, subst, ap, Bool, true, false, not, ◌||◌, List, [], ◌∷◌, some, Text,
  if◌then◌else◌, All, tally, text_eq, text_eq_iff, arith, Bool-cases, inl, inr,
}
use project_sh_fms.Auth.{Browser, Platform, can_operate}
use project_sh_fms.Mock.Alarms.{Alarm}
use project_sh_fms.Mock.Alarms.Ids.{UniqueIds, Fresh}
use project_sh_fms.AlarmPage.{
  ack, shelf, Click, is_in, acked, put_away, silent, change_first, change_selected, found,
  click_row, click_ack, click_shelf, visit,
}
use project_sh_fms.AlarmPage.Handlers.{Grows, kept, now_acked, now_put_away, AllGrow, visit-AllGrow}

text_ne : (s t : Text) → s ≢ t → text_eq s t ≡ false
text_ne s t h = elim (Bool-cases (text_eq s t)) [
  | inl e ↦ absurd (h ((text_eq_iff s t).0 e))
  | inr e ↦ e
]

change_selected-Fresh :
    (f : Alarm → Alarm) (k : Text) (xs : List Alarm)
    → Fresh k xs
    → change_selected f (k ∷ []) xs ≡ xs
unfolding change_selected is_in
change_selected-Fresh f k [] h = refl
change_selected-Fresh f k (a ∷ xs) h =
    rw (text_ne k a.id h.0) (ap (λ ys. a ∷ ys) (change_selected-Fresh f k xs h.1))

change_first-selected :
    (f : Alarm → Alarm) (k : Text) (xs : List Alarm)
    → UniqueIds xs
    → change_first f k xs ≡ change_selected f (k ∷ []) xs
unfolding change_first change_selected is_in
change_first-selected f k [] u = refl
change_first-selected f k (a ∷ xs) u = elim (Bool-cases (text_eq a.id k)) [
  | inl e ↦
      let q = (text_eq_iff a.id k).0 e in
      rw (e, (text_eq_iff k a.id).1 (sym q))
        (ap (λ ys. f a ∷ ys) (sym (change_selected-Fresh f k xs (subst (λ i. Fresh i xs) q u.0))))
  | inr e ↦
      rw (e, text_ne k a.id (λ q. let t = (text_eq_iff a.id k).1 (sym q) in cc))
        (ap (λ ys. a ∷ ys) (change_first-selected f k xs u.1))
]

module _ (p : Platform) (b : Browser) where
  -- Where the ids tell the alarms apart and the tab may operate, the button of a row that is shown
  -- does what the button of the selection does for that row alone, with no other alarm changed:
  -- for the acknowledgement, and for the shelf once the question is answered with yes.
  pub row_alone :
      (k : Text) (xs : List Alarm) {a : Alarm}
      → UniqueIds xs
      → can_operate p b ≡ true
      → found k xs ≡ some a
      → (click_row p b ack k xs ≡ click_ack p b (k ∷ []) xs)
        × (click_row p b shelf k xs ≡ click_shelf p b true (k ∷ []) xs)
  unfolding click_row click_ack click_shelf
  row_alone k xs u c e = (
    rw (c, e) (ap (λ ys. (ys, silent)) (change_first-selected acked k xs u)),
    rw (c, e) (ap (λ ys. (ys, silent)) (change_first-selected put_away k xs u)),
  )

-- A shelved alarm is acknowledged.
abbrev pub IsSound : Alarm → Type 0
IsSound a = (not a.shelved || a.ack) ≡ true

Grows-IsSound : {a a' : Alarm} → Grows a a' → IsSound a → IsSound a'
Grows-IsSound kept h = h
Grows-IsSound {a} now_acked h = ground arith
Grows-IsSound now_put_away h = refl

abbrev pub is_open : Alarm → Bool
is_open a = not a.ack

Grows-open :
    {a a' : Alarm} → Grows a a' → (if is_open a' then 1 else 0) ≤ (if is_open a then 1 else 0)
Grows-open kept = omega arith
Grows-open now_acked = omega arith
Grows-open now_put_away = omega arith

tally-cons :
    (q : Alarm → Bool) (a : Alarm) (xs : List Alarm)
    → tally q (a ∷ xs) ≡ (if q a then 1 else 0) + tally q xs
tally-cons q a xs = ground arith

AllGrow-IsSound :
    (xs ys : List Alarm)
    → AllGrow xs ys
    → All IsSound xs
    → All IsSound ys × (tally is_open ys ≤ tally is_open xs)
AllGrow-IsSound [] [] g h = (tt, omega arith)
AllGrow-IsSound [] (b ∷ ys) g h = elim g [ ]
AllGrow-IsSound (a ∷ xs) [] g h = elim g [ ]
AllGrow-IsSound (a ∷ xs) (b ∷ ys) g h =
    let (s, t) = AllGrow-IsSound xs ys g.1 h.1 in
    (
      (Grows-IsSound g.0 h.0, s),
      omega (arith, t, tally-cons is_open a xs, tally-cons is_open b ys, Grows-open g.0),
    )

module _ (p : Platform) where
  -- Through a whole visit every alarm on the shelf stays one that was acknowledged, if it was so at
  -- the start, and the number of alarms that are not acknowledged never rises.
  pub visit-IsSound :
      (cs : List (Browser × Click)) (xs : List Alarm)
      → All IsSound xs
      → All IsSound (visit p cs xs) × (tally is_open (visit p cs xs) ≤ tally is_open xs)
  visit-IsSound cs xs h = AllGrow-IsSound xs (visit p cs xs) (visit-AllGrow p cs xs) h

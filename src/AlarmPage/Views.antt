-- ===== src/AlarmPage/Views.antt =====
-- The figures and the table agree.
use project_sh_fms.Prelude.{
  ℕ, suc, ◌+◌, ◌≡◌, refl, ap, Bool, true, not, ◌&&◌, List, [], ◌∷◌, map, Option, none, some, Text,
  if◌then◌else◌, ◌==◌, select, length, arith, length-map, All, tally, length-select, ◌∙◌, sym, ap₂,
  Bool-cases, inl, inr,
}
use project_sh_fms.Mock.Alarms.{Alarm, Load}
use project_sh_fms.AlarmPage.Table.{
  Status, any, un, ack, sh, figures, fits, visible, table, row_of, Row, details_only, ack_and_shelf,
  pri_fits, area_fits,
}

tally_and :
    (q w : Alarm → Bool) (xs : List Alarm)
    → length (select w (select q xs)) ≡ tally (λ a. q a && w a) xs
tally_and q w [] = refl
tally_and q w (a ∷ xs) = ground (arith, tally_and q w xs)

length-table :
    (p : Option ℕ) (ar : Option Text) (st : Status) (xs : List Alarm)
    → length (table p ar st xs) ≡ tally (fits p ar st) xs
unfolding table
length-table p ar st xs = length-map row_of (visible p ar st xs) ∙ length-select (fits p ar st) xs

tally-eq :
    (q w : Alarm → Bool) → ((a : Alarm) → q a ≡ w a) → (xs : List Alarm) → tally q xs ≡ tally w xs
tally-eq q w h [] = refl
tally-eq q w h (a ∷ xs) = rw (h a) (ap (λ k. if w a then suc k else k) (tally-eq q w h xs))

fits-open :
    (p : Option ℕ) (ar : Option Text) (a : Alarm)
    → fits p ar un a ≡ true
    → (row_of a).buttons ≡ ack_and_shelf
unfolding fits row_of
fits-open p ar a h = ground arith

fits-closed :
    (p : Option ℕ) (ar : Option Text) (a : Alarm)
    → fits p ar ack a ≡ true
    → (row_of a).buttons ≡ details_only
unfolding fits row_of
fits-closed p ar a h = ground arith

rows-All :
    (P : Row → Type 0) (q : Alarm → Bool)
    → ((a : Alarm) → q a ≡ true → P (row_of a))
    → (xs : List Alarm) → All P (map row_of (select q xs))
rows-All P q h [] = tt
rows-All P q h (a ∷ xs) = elim (Bool-cases (q a)) [
  | inl e ↦ rw e (h a e, rows-All P q h xs)
  | inr e ↦ rw e (rows-All P q h xs)
]

open_buttons :
    (p : Option ℕ) (ar : Option Text) (xs : List Alarm)
    → All (λ w. w.buttons ≡ ack_and_shelf) (table p ar un xs)
unfolding table
open_buttons p ar xs = rows-All _ (fits p ar un) (fits-open p ar) xs

closed_buttons :
    (p : Option ℕ) (ar : Option Text) (xs : List Alarm)
    → All (λ w. w.buttons ≡ details_only) (table p ar ack xs)
unfolding table
closed_buttons p ar xs = rows-All _ (fits p ar ack) (fits-closed p ar) xs

-- The figures for alarms not acknowledged, for urgent ones among them and for shelved ones are the
-- numbers of rows that the table has under the filters of those names.
pub figures-table :
    (ld : Load) (xs : List Alarm)
    → ((figures ld xs).unack.value ≡ length (table none none un xs))
      × ((figures ld xs).p1.value ≡ length (table (some 1) none un xs))
      × ((figures ld xs).shelf.value ≡ length (table none none sh xs))
unfolding figures fits
figures-table ld xs = (
  length-select (λ a. not a.ack) xs ∙ sym (length-table none none un xs),
  tally_and (λ a. not a.ack) (λ a. a.pri == 1) xs
      ∙ tally-eq (λ a. not a.ack && a.pri == 1) (fits (some 1) none un) (λ a. ground arith) xs
      ∙ sym (length-table (some 1) none un xs),
  length-select (λ a. a.shelved) xs ∙ sym (length-table none none sh xs),
)

tally-partition :
    (p : Option ℕ) (ar : Option Text) (xs : List Alarm)
    → tally (fits p ar un) xs + tally (fits p ar ack) xs ≡ tally (fits p ar any) xs
unfolding fits
tally-partition p ar [] = refl
tally-partition p ar (a ∷ xs) = elim (Bool-cases (pri_fits p a)) [
  | inl e ↦ elim (Bool-cases (area_fits ar a)) [
    | inl f ↦ rw (e, f) (ground (arith, tally-partition p ar xs))
    | inr f ↦ rw (e, f) (tally-partition p ar xs)
  ]
  | inr e ↦ rw e (tally-partition p ar xs)
]

-- For every choice of priority and area, the rows not acknowledged and the acknowledged ones make
-- up all rows; the rows with buttons to operate are the former, those with details only the latter.
pub table_partition :
    (p : Option ℕ) (ar : Option Text) (xs : List Alarm)
    → (length (table p ar un xs) + length (table p ar ack xs) ≡ length (table p ar any xs))
      × All (λ w. w.buttons ≡ ack_and_shelf) (table p ar un xs)
      × All (λ w. w.buttons ≡ details_only) (table p ar ack xs)
table_partition p ar xs = (
  ap₂ ◌+◌ (length-table p ar un xs) (length-table p ar ack xs)
      ∙ tally-partition p ar xs
      ∙ sym (length-table p ar any xs),
  open_buttons p ar xs,
  closed_buttons p ar xs,
)

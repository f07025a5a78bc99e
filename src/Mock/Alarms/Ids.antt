-- ===== src/Mock/Alarms/Ids.antt =====
-- The ids of the alarms tell them apart.
use Prim.Native.Nat.{◌≤◌, ◌<◌}
use project_sh_fms.Prelude.{
  ℕ, zero, suc, ◌+◌, ◌-◌, ◌/◌, ◌%◌, ◌≡◌, ◌≢◌, refl, ap, ap₂, select, ◌==◌, ◌∙◌, sym, not, List, [],
  ◌∷◌, ◌++◌, Text, codes, arith, length, drop, All, none,
}
use project_sh_fms.Mock.Format.{Date, pad, ymd, pad-two}
use project_sh_fms.Mock.Alarms.{Alarm, raw_alarms, alarm_id, dated, dated_from, alarms}

-- The last unit of a text, after those read so far.
abbrev last_unit : ℕ → Text → ℕ
last_unit c [] = c
last_unit c (d ∷ s) = last_unit d s

abbrev last_two : ℕ → ℕ → Text → ℕ × ℕ
last_two b c [] = (b, c)
last_two b c (d ∷ s) = last_two c d s

last_two-append : (s : Text) (a b x y : ℕ) → last_two a b (s ++ (x ∷ y ∷ [])) ≡ (x, y)
last_two-append [] a b x y = refl
last_two-append (c ∷ s) a b x y = last_two-append s b c x y

last_two-behind : (p s : Text) (a b x y : ℕ) → last_two a b (p ++ (s ++ (x ∷ y ∷ []))) ≡ (x, y)
last_two-behind [] s a b x y = last_two-append s a b x y
last_two-behind (c ∷ p) s a b x y = last_two-behind p s b c x y

-- What a position counted back from 100 prints ends in its last two digits.
pad_tail :
    (i : ℕ)
    → i ≤ 90
    → (s : Text) × (pad (100 - i) ≡ s ++ ((48 + (100 - i) % 100 / 10) ∷ (48 + (100 - i) % 10) ∷ []))
unfolding pad
pad_tail zero h = (codes "1", refl)
pad_tail (suc i) h =
    ([], pad-two (100 - suc i) (omega arith) ∙ ap₂ (λ x y. x ∷ y ∷ []) (omega arith) (omega arith))

id_tail :
    (d : Date) (i : ℕ)
    → i ≤ 90
    → last_two 0 0 (alarm_id d i) ≡ (48 + (100 - i) % 100 / 10, 48 + (100 - i) % 10)
unfolding alarm_id
id_tail d i h =
    let (s, e) = pad_tail i h in
    rw e (last_two-behind (drop 2 (select (λ c. not (c == b'-')) (ymd d))) (b'-' ∷ s) _ _ _ _)

-- Whatever the days, two of the first ninety-one positions get two different ids.
pub alarm_id_injective :
    (d e : Date) (i j : ℕ) → i ≤ 90 → j ≤ 90 → alarm_id d i ≡ alarm_id e j → i ≡ j
alarm_id_injective d e i j h k q =
    let p = sym (id_tail d i h) ∙ ap (last_two 0 0) q ∙ id_tail e j k in
    let a = ap (λ t. t.0) p in let b = ap (λ t. t.1) p in omega (arith, a, b)

-- No alarm of the list has the id `k`.
abbrev pub Fresh : Text → List Alarm → Type 0
Fresh k = All (λ a. k ≢ a.id)

-- The ids are pairwise different.
abbrev pub UniqueIds : List Alarm → Type 0
UniqueIds [] = Unit
UniqueIds (a ∷ rest) = Fresh a.id rest × UniqueIds rest

module _ (local : ℕ → Date) where
  dated_from-Fresh :
      (now i j : ℕ) (d : Date) (xs : List Alarm)
      → i < j
      → j + length xs ≤ 91
      → Fresh (alarm_id d i) (dated_from local now j xs)
  unfolding dated_from dated
  dated_from-Fresh now i j d [] h k = tt
  dated_from-Fresh now i j d (a ∷ xs) h k = (
    (λ q. let e = alarm_id_injective d _ i j (omega arith) (omega arith) q in absurd (omega arith)),
    dated_from-Fresh now i (suc j) d xs (omega arith) (omega arith),
  )

  dated_from-UniqueIds :
      (now i : ℕ) (xs : List Alarm) → i + length xs ≤ 91 → UniqueIds (dated_from local now i xs)
  unfolding dated_from dated
  dated_from-UniqueIds now i [] h = tt
  dated_from-UniqueIds now i (a ∷ xs) h = (
    dated_from-Fresh now i (suc i) _ xs (omega arith) (omega arith),
    dated_from-UniqueIds now (suc i) xs (omega arith),
  )

  -- The alarms that a page makes have pairwise different ids, whatever the time zone and the time,
  -- also where the list spans midnight; and asked again, at any later time, the page answers with
  -- the same list.
  pub alarms_made :
      (now later : ℕ)
      → let (xs, kept) = alarms local none now in
        UniqueIds xs × ((alarms local kept later).0 ≡ xs) × ((alarms local kept later).1 ≡ kept)
  unfolding alarms
  alarms_made now later = (dated_from-UniqueIds now 0 raw_alarms (omega arith), refl, refl)

-- ===== src/Chart/Labels.antt =====
-- The labels under a line chart.
use Prim.Native.Nat.{◌≤◌, ◌<◌}
use native.Mathlib.Nat.{suc-mod, zero-mod, mod-lt, mod-eq_of_lt, mod_self, mul-le-mul_left, mul-suc}
use project_sh_fms.Prelude.{
  ℕ, zero, suc, ◌+◌, ◌*◌, ◌%◌, ◌≡◌, ◌⊎◌, inl, inr, refl, List, [], ◌∷◌, some, Text, if◌then◌else◌,
  ◌==◌, length, arith, Bool-cases, leb, leb→le,
}
use project_sh_fms.Number.{Number}
use project_sh_fms.Chart.{Axes, thinned, label_step, x_labels}

-- How far the last drawn label is behind, where the remainder of the index is `m`.
abbrev behind : ℕ → ℕ → ℕ
behind k m = if m == 0 then suc k else m

next_rest : (k i : ℕ) → (i + 1) % suc k ≡ suc (i % suc k) % suc k
next_rest k i = let e : i + 1 ≡ suc i = omega arith in rw e (suc-mod i (suc k))

behind_next : (k i : ℕ) → behind k ((i + 1) % suc k) ≡ i % suc k + 1
behind_next k i =
    let below = mod-lt i {m = suc k} (omega arith) in
    elim (Bool-cases (i % suc k == k)) [
      | inl e ↦
          let q : i % suc k ≡ k = ground arith in
          rw (next_rest k i, q, mod_self (suc k)) (omega arith)
      | inr e ↦
          let q : suc (i % suc k) < suc k = ground (arith, below) in
          rw (next_rest k i, mod-eq_of_lt q) (ground arith)
    ]

times_le : (k c : ℕ) → suc k * c + 1 ≤ 11 * suc k → c ≤ 10
times_le k c h = elim (Bool-cases (leb c 10)) [
  | inl e ↦ leb→le c 10 e
  | inr e ↦
      let more : 11 ≤ c = ground arith in
      let m = mul-le-mul_left (suc k) more in absurd (omega (arith, m, h))
]

module _ (r : Number) (a : Axes r) (y : r.Num) where
  length-thinned :
      (k len i : ℕ) (ls : List Text)
      → suc k * length (thinned r a y (suc k) len i ls) + 1 ≤ length ls + behind k (i % suc k)
  unfolding thinned
  length-thinned k len i [] = elim (Bool-cases (i % suc k == 0)) [
    | inl e ↦ rw e (omega arith)
    | inr e ↦ let q : 1 ≤ i % suc k = ground arith in rw e (omega (arith, q))
  ]
  length-thinned k len i (l ∷ ls) =
      let ih = length-thinned k len (i + 1) ls in
      let b = behind_next k i in
      elim (Bool-cases (i % suc k == 0)) [
        | inl e ↦
            let q : i % suc k ≡ 0 = ground arith in
            let m = mul-suc (suc k) (length (thinned r a y (suc k) len (i + 1) ls)) in
            rw e (omega (arith, ih, b, q, m))
        | inr e ↦ rw e (omega (arith, ih, b))
      ]

  thinned_one : (len i : ℕ) (ls : List Text) → length (thinned r a y 1 len i ls) ≡ length ls
  unfolding thinned
  thinned_one len i [] = refl
  thinned_one len i (l ∷ ls) =
      let m : i % 1 ≡ 0 = omega arith in rw m (omega (arith, thinned_one len (i + 1) ls))

  thinned_many :
      (k len : ℕ) (ls : List Text)
      → suc (suc k) ≡ label_step r (length ls)
      → (length (thinned r a y (suc (suc k)) len 0 ls) ≤ 10) × (10 < length ls)
  thinned_many k len ls e =
      let b = (rw (zero-mod (suc (suc k))) at (length-thinned (suc k) len 0 ls)) in
      (times_le (suc k) _ (omega (arith, b, e)), omega (arith, e))

  thinned_few :
      (s len : ℕ) (ls : List Text)
      → s ≡ label_step r (length ls)
      → (length (thinned r a y s len 0 ls) ≤ 10)
        × ((10 < length ls) ⊎ (length (thinned r a y s len 0 ls) ≡ length ls))
  unfolding thinned
  thinned_few s len [] e = (omega arith, inr refl)
  thinned_few zero len (l ∷ ls) e = absurd (omega (arith, e))
  thinned_few (suc zero) len (l ∷ ls) e =
      let q = thinned_one len 0 (l ∷ ls) in (omega (arith, q, e), inr q)
  thinned_few (suc (suc k)) len (l ∷ ls) e =
      let (few, many) = thinned_many k len (l ∷ ls) e in (few, inl many)

  -- However many labels there are, ten at most are drawn; where there are ten or fewer, all are.
  pub length-x_labels :
      (ls : List Text)
      → (length (x_labels r a y (some ls)) ≤ 10)
        × ((10 < length ls) ⊎ (length (x_labels r a y (some ls)) ≡ length ls))
  unfolding x_labels
  length-x_labels ls = thinned_few (label_step r (length ls)) (length ls) ls refl

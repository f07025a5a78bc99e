-- ===== src/Js/Decimal.antt =====
-- `'' + n` for a whole number n below 10^21: its decimal digits.
use project_sh_fms.Prelude.{
  ℕ, zero, suc, ◌+◌, ◌*◌, ◌/◌, ◌%◌, ◌<◌, ◌≡◌, refl, [], ◌∷◌, ◌++◌, Text, ltb, if◌then◌else◌, arith,
  inl, inr, Bool-cases,
}

unfoldable pub decimal_from : ℕ → ℕ → Text
decimal_from zero n = []
decimal_from (suc f) n =
    let more = decimal_from f (n / 10) ++ (48 + n % 10) ∷ [] in
    if ltb n 10 then (48 + n) ∷ [] else more

unfoldable pub decimal : ℕ → Text
unfolding decimal_from
decimal n = decimal_from (suc n) n

-- The number that digits spell, after those read so far.
unfoldable pub value_from : ℕ → Text → ℕ
value_from acc [] = acc
value_from acc (d ∷ s) = value_from (acc * 10 + d % 48) s

unfoldable pub value : Text → ℕ
unfolding value_from
value s = value_from 0 s

pub value_from-append :
    (acc : ℕ) (s t : Text) → value_from acc (s ++ t) ≡ value_from (value_from acc s) t
unfolding value_from
value_from-append acc [] t = refl
value_from-append acc (d ∷ s) t = value_from-append (acc * 10 + d % 48) s t

value-decimal_from : (f n : ℕ) → n < f → value_from 0 (decimal_from f n) ≡ n
unfolding value_from decimal_from
value-decimal_from zero n h = absurd (omega arith)
value-decimal_from (suc f) n h = elim (Bool-cases (ltb n 10)) [
  | inl e ↦ rw e (ground arith)
  | inr e ↦ rw (e) (
      ground (
        arith,
        value_from-append 0 (decimal_from f (n / 10)) ((48 + n % 10) ∷ []),
        value-decimal_from f (n / 10),
      ))
]

-- Enough fuel is given, so the digits of a number spell that number.
pub value-decimal : (n : ℕ) → value (decimal n) ≡ n
unfolding value decimal
value-decimal n = value-decimal_from (suc n) n (omega arith)

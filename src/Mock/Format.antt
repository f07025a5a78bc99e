-- ===== src/Mock/Format.antt =====
-- assets/js/mock.js, lines 13-16: two digits, times of day and dates. A `Date` is its local fields.
use Prim.Native.Nat.{◌≤◌, ◌<◌}
use native.Mathlib.Decide.{dec_lt}
use project_sh_fms.Prelude.{
  ℕ, suc, ◌-◌, ◌+◌, ◌*◌, ◌/◌, ◌%◌, ◌≡◌, refl, [], ◌∷◌, ◌++◌, Text, ltb, if◌then◌else◌, arith,
  length, ap,
}
use project_sh_fms.Js.Decimal.{decimal, decimal_from}

pub record Date : Type 0 where
  pub year : ℕ  -- getFullYear()
  pub month : ℕ  -- getMonth(), from 0
  pub day : ℕ  -- getDate()
  pub hours : ℕ
  pub minutes : ℕ
  pub seconds : ℕ

unfoldable pub pad : ℕ → Text
unfolding decimal
pad n = if ltb n 10 then b'0' ∷ decimal n else decimal n

unfoldable pub hhmm : Date → Text
hhmm d = pad d.hours ++ (b':' ∷ pad d.minutes)

unfoldable pub hms : Date → Text
hms d = pad d.hours ++ (b':' ∷ (pad d.minutes ++ (b':' ∷ pad d.seconds)))

unfoldable pub ymd : Date → Text
unfolding decimal
ymd d = decimal d.year ++ (b'-' ∷ (pad (d.month + 1) ++ (b'-' ∷ pad d.day)))

one_digit : (f n : ℕ) → n < 10 → decimal_from (suc f) n ≡ (48 + n) ∷ []
unfolding decimal_from
one_digit f n h = ground arith

two_digits :
    (f n : ℕ) → 10 ≤ n → n < 100 → decimal_from (suc (suc f)) n ≡ (48 + n / 10) ∷ (48 + n % 10) ∷ []
unfolding decimal_from
two_digits f n h k = ground arith

-- The two digits of a number below 100.
pub pad-two : (n : ℕ) → n < 100 → pad n ≡ (48 + n / 10) ∷ (48 + n % 10) ∷ []
unfolding pad
pad-two n h = elim (dec_lt n 10) [
  | yes p ↦ ground (arith, one_digit n n p)
  | no p ↦
      let e : n ≡ suc (n - 1) = omega arith in
      ground (arith, ap (λ f. decimal_from (suc f) n) e, two_digits (n - 1) n)
]

-- A clock's reading as seconds of the day.
abbrev pub time_of : Date → ℕ
time_of d = (d.hours * 60 + d.minutes) * 60 + d.seconds

-- The seconds of the day that a text HH:MM:SS spells.
unfoldable pub read_hms : Text → ℕ
read_hms (a ∷ b ∷ c ∷ d ∷ e ∷ f ∷ g ∷ h ∷ []) =
    ((a % 48 * 10 + b % 48) * 60 + (d % 48 * 10 + e % 48)) * 60 + (g % 48 * 10 + h % 48)
read_hms s = 0

-- What `hms` prints is eight characters, which spell the time of day that was printed.
pub read_hms-hms :
    (d : Date)
    → d.hours < 24
    → d.minutes < 60
    → d.seconds < 60
    → (length (hms d) ≡ 8) × (read_hms (hms d) ≡ time_of d)
unfolding hms read_hms
read_hms-hms d h m s =
    rw
      (
        pad-two d.hours (omega arith),
        pad-two d.minutes (omega arith),
        pad-two d.seconds (omega arith),
      )
      (refl, omega arith)

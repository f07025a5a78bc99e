-- ===== src/Examples/Gateway.antt =====
-- The gateway and its historian with two values of one tag.
use project_sh_fms.Prelude.{
  ℕ, ◌+◌, ◌*◌, ◌/◌, ◌≡◌, refl, ap, ◌∙◌, Bool, true, false, List, [], ◌∷◌, some, none, Text, codes,
  length, All, Memᴰ, if◌then◌else◌, leb, select, arith, text_eq,
}
use Prim.Native.Nat.{◌<◌}
use native.Mathlib.Nat.{div-mul-le_self, mul-div-mul_right, mul-div_right, mul_assoc, mul_left_comm}
use project_sh_fms.Number.{Number}
use project_sh_fms.Engine.{Sample}
use project_sh_fms.Engine.Store.{lookup}
use project_sh_fms.Engine.Operate.{find, ack}
use project_sh_fms.Historian.{write, query, thin_out, is_within}
use project_sh_fms.Historian.Refine.{points_of, newest}
use project_sh_fms.Historian.Index.{IsRounded}
use project_sh_fms.Historian.Query.{query-write, query_sound}
use project_sh_fms.Gateway.{
  Request, Services, run_batches, new_services, ack_alarm, shelve_alarm, shelved_until,
  ticks_per_minute,
}
use project_sh_fms.Gateway.Current.{last_from, accepted, current-accepted}
use project_sh_fms.Gateway.Answers.{
  posted_ack, handle, is_error, Untouched, error-Untouched, expiry, shelve_overstates,
}
use project_sh_fms.Examples.Thousandths.{thousandths}
use project_sh_fms.Examples.Engine.{runtime, line_tag, sample, ringing, first_event}

-- The cast of a number of thousandths.
abbrev to_int : ℕ → ℕ
to_int x = x / 1000

-- Numbers counted in units of 2^-52, whose literals are whole.
abbrev units : Number
units = record thousandths {
  lit = λ m k. m * 4503599627370496;
  mul = λ x y. x * y / 4503599627370496;
  div = λ x y. x * 4503599627370496 / y;
}

abbrev unit_int : ℕ → ℕ
unit_int x = x / 4503599627370496

scaled_quotient :
    (n m : ℕ)
    → 0 < m
    → n * 4503599627370496 * 4503599627370496 / (m * 4503599627370496) * m
      ≡ n * 4503599627370496 / m * m
scaled_quotient n m z = ap (λ q. q * m) (mul-div-mul_right (n * 4503599627370496) m (omega arith))

scaled_product : (i x : ℕ) → i * 4503599627370496 * x / 4503599627370496 ≡ i * x
scaled_product i x =
    ap (λ y. y / 4503599627370496)
      (mul_assoc i 4503599627370496 x ∙ mul_left_comm i 4503599627370496 x)
    ∙ mul-div_right (i * x) (omega arith)

rounded : IsRounded units unit_int
rounded = record {
  units = λ x. x;
  divided =
      λ n m z a b. omega (arith, div-mul-le_self (n * 4503599627370496) m, scaled_quotient n m z);
  multiplied = λ i x a b. omega (arith, scaled_product i x);
  truncated = λ x. div-mul-le_self x 4503599627370496;
}

abbrev unit_sample : ℕ → ℕ → Sample units
unit_sample x ts = record { tag = line_tag; value = x; quality = codes "Good"; ts = ts }

abbrev three : List (Sample units)
three = unit_sample 30 1 ∷ unit_sample 55 2 ∷ unit_sample 60 3 ∷ []

abbrev two : List (Sample thousandths)
two = sample 3000 ∷ sample 5500 ∷ []

query-write_example :
    query thousandths to_int line_tag 0 9 1 (write thousandths two [])
    ≡ thin_out thousandths to_int 1 (
        select
          (is_within thousandths 0 9)
          (newest thousandths (points_of thousandths line_tag two)))
query-write_example = query-write thousandths to_int two line_tag 0 9 1

query_sound_example :
    let answer = query units unit_int line_tag 0 9 2 (write units three []) in
    let all = select (is_within units 0 9) (newest units (points_of units line_tag three)) in
    All (λ p. Memᴰ p (points_of units line_tag three) × (is_within units 0 9 p ≡ true)) answer
    × (length answer ≡ (if leb (length all) 2 then length all else 2))
query_sound_example = query_sound units unit_int three line_tag 0 9 2 rounded

abbrev key : Text
key = codes "k"

abbrev requests : List (Request thousandths)
requests =
    record { given = some key; values = (sample 3000, 1) ∷ []; now = 1 }
    ∷ record { given = none; values = (sample 9000, 2) ∷ []; now = 2 }
    ∷ []

current-accepted_example :
    let s =
      run_batches thousandths runtime key requests
        (new_services thousandths (record { values = []; meta = []; received = 0 })) in
    (lookup line_tag s.store.values
      ≡ last_from thousandths line_tag none (accepted thousandths key requests))
    × (query thousandths to_int line_tag 0 9 600 s.series
        ≡ thin_out thousandths to_int 600 (
            select (is_within thousandths 0 9) (
              newest thousandths
                (points_of thousandths line_tag (accepted thousandths key requests)))))
    × (s.store.received ≡ length (accepted thousandths key requests))
current-accepted_example =
    current-accepted thousandths runtime key to_int [] requests line_tag 0 9 600

abbrev serving : Services thousandths
serving = record {
  store = record { values = []; meta = []; received = 0 };
  engine = ringing;
  series = [];
}

abbrev no_space : ℕ → Bool
no_space c = false

unknown_ack :
    is_error
      (handle thousandths runtime key no_space (posted_ack (codes "x") (codes "op") 5) serving).2
    ≡ true
unfolding handle ack_alarm ack find text_eq
unknown_ack = refl

error-Untouched_example :
    Untouched thousandths runtime key no_space serving
      (handle thousandths runtime key no_space (posted_ack (codes "x") (codes "op") 5) serving)
error-Untouched_example =
    error-Untouched thousandths runtime key no_space (posted_ack (codes "x") (codes "op") 5) serving
      unknown_ack

found_first : find thousandths (codes "AL-260923-1") ringing.active ≡ some first_event
unfolding find text_eq
found_first = refl

shelve_overstates_example :
    let (after, sent, answer) =
      shelve_alarm thousandths no_space (codes "AL-260923-1") (codes "op") 600 7 8 serving in
    (answer ≡ shelved_until (codes "AL-260923-1") (8 + 600 * ticks_per_minute))
    × (expiry (lookup line_tag after.engine.active) ≡ some (7 + 480 * ticks_per_minute))
shelve_overstates_example =
    shelve_overstates thousandths no_space (codes "AL-260923-1") (codes "op") 600 7 8 first_event
      serving refl found_first (omega arith)

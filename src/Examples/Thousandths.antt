-- ===== src/Examples/Thousandths.antt =====
-- Numbers counted in thousandths, for runs of the definitions over `Number`.
use Prim.Native.Nat.{◌^◌}
use project_sh_fms.Prelude.{ℕ, ◌+◌, ◌-◌, ◌*◌, ◌/◌, ◌≡◌, true, leb, ltb, if◌then◌else◌, arith}
use project_sh_fms.Number.{Number, IsOrdered}
use project_sh_fms.Js.Decimal.{decimal, value}

abbrev pub thousandths : Number
thousandths = record {
  Num = ℕ;
  lit = λ m k. m * 1000 / 10 ^ k;
  neg = λ x. 0;
  add = λ x y. x + y;
  sub = λ x y. x - y;
  mul = λ x y. x * y / 1000;
  div = λ x y. x * 1000 / y;
  abs = λ x. x;
  floor = λ x. x / 1000 * 1000;
  round = λ x. (x + 500) / 1000 * 1000;
  max = λ x y. if ltb x y then y else x;
  min = λ x y. if ltb x y then x else y;
  le = leb;
  lt = ltb;
  to_fixed = λ x k. decimal x;
  to_number = λ s. value s;
}

leb_trans : (x y z : ℕ) → leb x y ≡ true → leb y z ≡ true → leb x z ≡ true
leb_trans x y z h k = ground arith

pub thousandths-IsOrdered : IsOrdered thousandths
thousandths-IsOrdered = record { trans = leb_trans }

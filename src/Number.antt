-- ===== src/Number.antt =====
-- Doubles, as the pages and the gateway compute with them. `lit m k` is the literal m / 10^k;
-- `to_fixed` and `to_number` are the pages' toFixed and unary plus. Type and operations are a
-- parameter of what uses them.
use project_sh_fms.Prelude.{ℕ, ◌≡◌, Bool, true, Text}

pub record Number : Type 1 where
  pub Num : Type 0
  pub lit : ℕ → ℕ → Num
  pub neg : Num → Num
  pub add : Num → Num → Num
  pub sub : Num → Num → Num
  pub mul : Num → Num → Num
  pub div : Num → Num → Num
  pub abs : Num → Num
  pub floor : Num → Num
  pub round : Num → Num
  pub max : Num → Num → Num
  pub min : Num → Num → Num
  pub le : Num → Num → Bool
  pub lt : Num → Num → Bool
  pub to_fixed : Num → ℕ → Text
  pub to_number : Text → Num

-- `<=` is transitive, for NaN too, which is below and above nothing.
pub record IsOrdered (r : Number) : Type 0 where
  pub trans : (x y z : r.Num) → r.le x y ≡ true → r.le y z ≡ true → r.le x z ≡ true

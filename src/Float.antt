-- ===== src/Float.antt =====
-- Go's float64 as the planes use it: an interface of operations with the IEEE 754 laws that the
-- code relies on. A sum may round and may overflow to an infinity, so no law says that a sum is
-- exact or finite. The tests are `<` and `<=`, false wherever an operand is not a number.
pub mod Whole
use distributed_fraud_detect.Prelude.{◌≡◌, Bool, true, false}

pub record Float64 (A : Type 0) : Type 0 where
  pub zero : A
  -- math.MaxFloat64
  pub max_float : A
  pub add : A → A → A
  pub sub : A → A → A
  pub ltb : A → A → Bool
  pub leb : A → A → Bool
  pub is_nan : A → Bool
  pub is_inf : A → Bool
  pub zero-not_nan : is_nan zero ≡ false
  pub leb_refl : (x : A) → is_nan x ≡ false → leb x x ≡ true
  pub leb_trans : (x y z : A) → leb x y ≡ true → leb y z ≡ true → leb x z ≡ true
  pub leb-not_nan : (x y : A) → leb x y ≡ true → is_nan y ≡ false
  pub leb-not_ltb : (x y : A) → leb x y ≡ true → ltb y x ≡ false
  pub ltb-leb : (x y : A) → ltb x y ≡ true → leb x y ≡ true
  -- Below a value that is no infinity, from 0 upwards, none is.
  pub leb-not_inf :
      (x y : A) → leb zero x ≡ true → leb x y ≡ true → is_inf y ≡ false → is_inf x ≡ false
  -- Rounding is monotone, so a sum of values that are not negative lies above both of them.
  pub leb-add_left : (x y : A) → leb zero x ≡ true → leb zero y ≡ true → leb x (add x y) ≡ true
  pub leb-add_right : (x y : A) → leb zero x ≡ true → leb zero y ≡ true → leb y (add x y) ≡ true

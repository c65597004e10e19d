-- ===== src/Float/Whole.antt =====
-- An instance of the interface of Float.antt to run the code on: whole amounts with an infinity
-- and a value that is no number, the largest finite one being 1000.
use distributed_fraud_detect.Prelude.{
  ℕ, ◌+◌, ◌-◌, ◌≡◌, refl, Bool, true, false, arith, ltb, leb, if◌then◌else◌,
}
use distributed_fraud_detect.Float.{Float64}

pub data Whole : Type 0 where
  nan : Whole
  fin : ℕ → Whole
  inf : Whole

abbrev largest : ℕ
largest = 1000

unfoldable pub whole_add : Whole → Whole → Whole
whole_add nan b = nan
whole_add a nan = nan
whole_add inf b = inf
whole_add a inf = inf
whole_add (fin a) (fin b) = if leb (a + b) largest then fin (a + b) else inf

unfoldable pub whole_sub : Whole → Whole → Whole
whole_sub nan b = nan
whole_sub a nan = nan
whole_sub inf inf = nan
whole_sub inf (fin b) = inf
whole_sub (fin a) inf = fin 0
whole_sub (fin a) (fin b) = fin (a - b)

unfoldable pub whole_ltb : Whole → Whole → Bool
whole_ltb (fin a) (fin b) = ltb a b
whole_ltb (fin a) inf = true
whole_ltb _ _ = false

unfoldable pub whole_leb : Whole → Whole → Bool
whole_leb (fin a) (fin b) = leb a b
whole_leb (fin a) inf = true
whole_leb inf inf = true
whole_leb _ _ = false

unfoldable pub whole_is_nan : Whole → Bool
whole_is_nan nan = true
whole_is_nan _ = false

unfoldable pub whole_is_inf : Whole → Bool
whole_is_inf inf = true
whole_is_inf _ = false

pub leb_refl_lem : (x : Whole) → whole_is_nan x ≡ false → whole_leb x x ≡ true
unfolding whole_leb whole_is_nan
leb_refl_lem x h = ground arith

pub leb_trans_lem :
    (x y z : Whole) → whole_leb x y ≡ true → whole_leb y z ≡ true → whole_leb x z ≡ true
unfolding whole_leb
leb_trans_lem x y z h k = ground arith

pub leb-not_nan_lem : (x y : Whole) → whole_leb x y ≡ true → whole_is_nan y ≡ false
unfolding whole_leb whole_is_nan
leb-not_nan_lem x y h = ground arith

pub leb-not_ltb_lem : (x y : Whole) → whole_leb x y ≡ true → whole_ltb y x ≡ false
unfolding whole_leb whole_ltb
leb-not_ltb_lem x y h = ground arith

pub ltb-leb_lem : (x y : Whole) → whole_ltb x y ≡ true → whole_leb x y ≡ true
unfolding whole_leb whole_ltb
ltb-leb_lem x y h = ground arith

pub leb-not_inf_lem :
    (x y : Whole)
    → whole_leb (fin 0) x ≡ true
    → whole_leb x y ≡ true
    → whole_is_inf y ≡ false
    → whole_is_inf x ≡ false
unfolding whole_leb whole_is_inf
leb-not_inf_lem x y z h k = ground arith

pub leb-add_left_lem :
    (x y : Whole)
    → whole_leb (fin 0) x ≡ true
    → whole_leb (fin 0) y ≡ true
    → whole_leb x (whole_add x y) ≡ true
unfolding whole_leb whole_add
leb-add_left_lem x y h k = ground arith

pub leb-add_right_lem :
    (x y : Whole)
    → whole_leb (fin 0) x ≡ true
    → whole_leb (fin 0) y ≡ true
    → whole_leb y (whole_add x y) ≡ true
unfolding whole_leb whole_add
leb-add_right_lem x y h k = ground arith

pub zero-not_nan_lem : whole_is_nan (fin 0) ≡ false
unfolding whole_is_nan
zero-not_nan_lem = refl

instance abbrev pub whole : Float64 Whole
whole = record {
  zero = fin 0;
  max_float = fin largest;
  add = whole_add;
  sub = whole_sub;
  ltb = whole_ltb;
  leb = whole_leb;
  is_nan = whole_is_nan;
  is_inf = whole_is_inf;
  zero-not_nan = zero-not_nan_lem;
  leb_refl = leb_refl_lem;
  leb_trans = leb_trans_lem;
  leb-not_nan = leb-not_nan_lem;
  leb-not_ltb = leb-not_ltb_lem;
  ltb-leb = ltb-leb_lem;
  leb-not_inf = leb-not_inf_lem;
  leb-add_left = leb-add_left_lem;
  leb-add_right = leb-add_right_lem;
}

-- ===== src/Window/Dedupe.antt =====
-- The set `seen` of the window: how often an ID stands in it after deletions and an addition.
use distributed_fraud_detect.Prelude.{
  suc, ◌+◌, ◌-◌, ◌≤◌, ◌<◌, ◌≡◌, refl, true, false, List, [], ◌∷◌, arith, if◌then◌else◌, length,
  count, contains, erase, ◌==◌,
}
use distributed_fraud_detect.Text.{Text, text_key, text_beq_iff}
use distributed_fraud_detect.Window.{delete_all, set_add}

pub count_absent : (x : Text) (xs : List Text) → contains xs x ≡ false → count x xs ≡ 0
count_absent x [] h = refl
count_absent x (y ∷ ys) h = ground (arith, count_absent x ys)

pub contains_of_count : (x : Text) (xs : List Text) → 0 < count x xs → contains xs x ≡ true
contains_of_count x [] h = absurd (omega arith)
contains_of_count x (y ∷ ys) h = ground (arith, contains_of_count x ys)

count-erase :
    (x y : Text) (xs : List Text) → count x (erase xs y) ≡ count x xs - (if y == x then 1 else 0)
count-erase x y [] = ground arith
count-erase x y (z ∷ zs) = ground (
  arith,
  count-erase x y zs,
  contains_of_count x zs,
  text_beq_iff z y,
  text_beq_iff z x,
  text_beq_iff y x,
)

pub count-delete_all :
    (x : Text) (xs seen : List Text) → count x (delete_all xs seen) ≡ count x seen - count x xs
count-delete_all x [] seen = omega arith
count-delete_all x (y ∷ ys) seen =
    omega (arith, count-delete_all x ys (erase seen y), count-erase x y seen)

length-erase-count :
    (y : Text) (seen : List Text) → 0 < count y seen → suc (length (erase seen y)) ≡ length seen
length-erase-count y [] h = absurd (omega arith)
length-erase-count y (z ∷ zs) h = ground (arith, length-erase-count y zs)

pub length-delete_all :
    (xs seen : List Text)
    → ((x : Text) → count x xs ≤ count x seen)
    → length (delete_all xs seen) + length xs ≡ length seen
length-delete_all [] seen h = omega arith
length-delete_all (y ∷ ys) seen h =
    omega (arith, length-erase-count y seen present, length-delete_all ys (erase seen y) rest)
  where
    present : 0 < count y seen
    present = ground (arith, h y, text_beq_iff y y)

    rest : (x : Text) → count x ys ≤ count x (erase seen y)
    rest x = omega (arith, h x, count-erase x y seen)

pub count-set_add :
    (x y : Text) (seen : List Text)
    → contains seen y ≡ false
    → count x (set_add y seen) ≡ (if y == x then 1 else 0) + count x seen
count-set_add x y seen h = ground arith

pub length-set_add :
    (y : Text) (seen : List Text)
    → contains seen y ≡ false
    → length (set_add y seen) ≡ suc (length seen)
length-set_add y seen h = ground arith

pub absent_of_count : (x : Text) (xs : List Text) → count x xs ≡ 0 → contains xs x ≡ false
absent_of_count x [] h = refl
absent_of_count x (y ∷ ys) h = ground (arith, absent_of_count x ys)

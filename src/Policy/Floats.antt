-- ===== src/Policy/Floats.antt =====
-- Python's floats, as the scores of policy/consolidation.py and policy/roadmap.py use them: the operations,
-- and what IEEE 754 says of `<` and of rounding.
use gxassessms.Base.{ℕ, ◌≤◌, Bool, true, false, ◌≡◌}

pub record Floats : Type 1 where
  pub Float : Type 0
  pub lt : Float → Float → Bool
  pub add : Float → Float → Float
  pub mul : Float → Float → Float
  pub of_nat : ℕ → Float
  -- the float of a number of hundredths, and of ten-thousandths
  pub hundredths : ℕ → Float
  pub ten_thousandths : ℕ → Float
  -- round(x, 2)
  pub rounded : Float → Float
  -- round(x, 4), and an x from 0 to 1 as the number of ten-thousandths that it is
  pub rounded_4 : Float → Float
  pub in_ten_thousandths : Float → ℕ
  pub lt_irrefl : (x : Float) → lt x x ≡ false
  pub lt_asym : (x y : Float) → lt x y ≡ true → lt y x ≡ false
  pub zero-lt-hundred : lt (of_nat 0) (of_nat 100) ≡ true
  -- rounding to two places leaves the bounds of the scores where they are
  pub rounded_above : (x : Float) → lt x (of_nat 0) ≡ false → lt (rounded x) (of_nat 0) ≡ false
  pub rounded_below : (x : Float) → lt (of_nat 100) x ≡ false → lt (of_nat 100) (rounded x) ≡ false
  pub rounded_4_above : (x : Float) → lt x (of_nat 0) ≡ false → lt (rounded_4 x) (of_nat 0) ≡ false
  pub rounded_4_below : (x : Float) → lt (of_nat 1) x ≡ false → lt (of_nat 1) (rounded_4 x) ≡ false
  pub zero-lt-one : lt (of_nat 0) (of_nat 1) ≡ true
  -- sums and products of floats that are not negative are not negative
  pub of_nat_above : (n : ℕ) → lt (of_nat n) (of_nat 0) ≡ false
  pub hundredths_above : (n : ℕ) → lt (hundredths n) (of_nat 0) ≡ false
  pub add_above :
      (x y : Float)
      → lt x (of_nat 0) ≡ false
      → lt y (of_nat 0) ≡ false
      → lt (add x y) (of_nat 0) ≡ false
  pub mul_above :
      (x y : Float)
      → lt x (of_nat 0) ≡ false
      → lt y (of_nat 0) ≡ false
      → lt (mul x y) (of_nat 0) ≡ false
  pub in_ten_thousandths_below :
      (x : Float) → lt (of_nat 1) x ≡ false → in_ten_thousandths x ≤ 10000

-- ===== src/Double/Fixed.antt =====
-- A concrete `Double`: whole numbers and NaN. It shows that the laws can be met, and the tests run
-- the code on it.
use kuka_iiqka_ros.Prelude.{
  ℕ, zero, suc, ◌+◌, ◌*◌, ◌/◌, Bool, true, false, ◌&&◌, arith, leb, if◌then◌else◌,
}
use kuka_iiqka_ros.Prelude.Int.{ℤ, pos, negsuc, pos_part, neg_part, ◌+ℤ◌, ◌-ℤ◌, ◌*ℤ◌, ltb_ℤ, leb_ℤ}
use kuka_iiqka_ros.Double.{Double}
use kuka_iiqka_ros.Double.Order.{IsOrdered}
use kuka_iiqka_ros.Double.Rounded.{IsRounded}

pub data Fixed : Type 0 where
  nan : Fixed
  num : ℤ → Fixed

abbrev on_numbers : (ℤ → ℤ → ℤ) → Fixed → Fixed → Fixed
on_numbers f (num a) (num b) = num (f a b)
on_numbers f _ _ = nan

abbrev tested : (ℤ → ℤ → Bool) → Fixed → Fixed → Bool
tested f (num a) (num b) = f a b
tested f _ _ = false

abbrev quotient : ℤ → ℤ → ℤ
quotient (pos a) (pos b) = pos (a / b)
quotient (pos a) (negsuc b) = pos 0 -ℤ pos (a / suc b)
quotient (negsuc a) (pos b) = pos 0 -ℤ pos (suc a / b)
quotient (negsuc a) (negsuc b) = pos (suc a / suc b)

-- The whole part of a square root, by trial from above.
abbrev root : ℕ → ℕ → ℕ
root zero n = 0
root (suc r) n = let below = root r n in if leb (suc r * suc r) n then suc r else below

abbrev square_root : Fixed → Fixed
square_root (num (pos n)) = num (pos (root n n))
square_root _ = nan

abbrev opposite : Fixed → Fixed
opposite (num a) = num (pos 0 -ℤ a)
opposite nan = nan

abbrev magnitude : Fixed → Fixed
magnitude (num a) = num (pos (pos_part a + neg_part a))
magnitude nan = nan

abbrev is_num : Fixed → Bool
is_num (num a) = true
is_num nan = false

instance abbrev pub fixed_double : Double Fixed
fixed_double = record {
  nought = num (pos 0);
  of_ℕ = λ n. num (pos n);
  add = on_numbers ◌+ℤ◌;
  sub = on_numbers ◌-ℤ◌;
  mul = on_numbers ◌*ℤ◌;
  quot = on_numbers quotient;
  neg = opposite;
  fabs = magnitude;
  sqrt = square_root;
  lt = tested ltb_ℤ;
  le = tested leb_ℤ;
  eq = tested (λ a b. leb_ℤ a b && leb_ℤ b a);
  is_finite = is_num;
}

pub Fixed-IsOrdered : IsOrdered Fixed
Fixed-IsOrdered = ground arith

pub Fixed-IsRounded : IsRounded Fixed
Fixed-IsRounded = ground arith

-- ===== src/Params.antt =====
-- What the nodes and controllers use of the parameter server of ROS, which is not part of this
-- repository: the value of a name in the type that is asked for, if it has one.
use kuka_iiqka_ros.Prelude.{◌-◌, ◌%◌, ℕ, Bool, List, String, Option}
use kuka_iiqka_ros.Prelude.Int.{ℤ, pos, negsuc}
use kuka_iiqka_ros.Double.{Double, of_ℕ, ◌⊘◌}

pub record Params (F : Type 0) : Type 0 where
  pub double : String → Option F
  pub doubles : String → Option (List F)
  pub int : String → Option ℤ
  pub bool : String → Option Bool
  pub string : String → Option String

-- A literal with a point: the `double` nearest to a fraction of two whole numbers, both exact, is their
-- rounded quotient.
abbrev pub fraction : {F : Type 0} ⦃d : Double F⦄ → ℕ → ℕ → F
fraction m n = of_ℕ m ⊘ of_ℕ n

-- `static_cast<std::uint16_t>` of an `int`, which a port is read as.
abbrev pub port_of_int : ℤ → ℕ
port_of_int (pos n) = n % 65536
port_of_int (negsuc n) = 65535 - n % 65536

-- ===== src/Xml.antt =====
-- What the frame parsers use of tinyxml2 and of `sscanf`, which are not part of this repository: a
-- parsed document of elements `E`, with attributes read as `double` (`F`), `int` and `unsigned`.
-- `none` is a failure code, or a null pointer.
use kuka_iiqka_ros.Prelude.{ℕ, List, String, Option, none, some}
use kuka_iiqka_ros.Prelude.Int.{ℤ}

pub record Xml (E F : Type 0) : Type 0 where
  pub parse : List ℕ → Option E
  pub first_child : E → String → Option E
  pub double_attribute : E → String → Option F
  pub int_attribute : E → String → Option ℤ
  pub unsigned_attribute : E → String → Option ℕ
  pub text : E → Option String
  pub scan_u64 : String → Option ℕ

-- The chain of checks of a parser, each of which returns at the first failure.
infixl 5 ◌>>=◌
abbrev pub ◌>>=◌ : {A B : Type 0} → Option A → (A → Option B) → Option B
none >>= f = none
some a >>= f = f a

-- What a getter with a default gives for an attribute.
abbrev pub value_or : {A : Type 0} → A → Option A → A
value_or v none = v
value_or v (some a) = a

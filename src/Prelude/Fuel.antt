-- ===== src/Prelude/Fuel.antt =====
-- Outcomes of functions on fuel: `none` is out of fuel.
use mathlib.Core.Option.{Option, none, some}

-- A property of the result, if there is one.
pub data Holds {A : Type 0} (P : A → Type 0) : Option A → Type 0 where
  out_of_fuel : Holds P none
  result : (a : A) → P a → Holds P (some a)

-- A result with a property.
pub data Gives {A : Type 0} (P : A → Type 0) : Option A → Type 0 where
  gives : (a : A) → P a → Gives P (some a)

pub data IsSome {A : Type 0} : Option A → Type 0 where
  is_some : (a : A) → IsSome (some a)

pub Holds-IsSome : {A : Type 0} (P : A → Type 0) (o : Option A) → Holds P o → IsSome o → Gives P o
Holds-IsSome P none out_of_fuel s = elim s [ ]
Holds-IsSome P (some a) (result _ p) s = gives a p

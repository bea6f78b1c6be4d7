-- ===== src/Double.antt =====
-- What the code does with a `double`: an interface, since the language and its hardware implement
-- it. The components take the type and its operations as an instance argument.
pub mod Order
pub mod Rounded
pub mod Fixed
use kuka_iiqka_ros.Prelude.{ℕ, Bool, true, not, ◌≡◌, if◌then◌else◌}

pub record Double (F : Type 0) : Type 0 where
  pub nought : F
  pub of_ℕ : ℕ → F
  pub add : F → F → F
  pub sub : F → F → F
  pub mul : F → F → F
  pub quot : F → F → F
  pub neg : F → F
  pub fabs : F → F
  pub sqrt : F → F
  pub lt : F → F → Bool
  pub le : F → F → Bool
  pub eq : F → F → Bool
  pub is_finite : F → Bool

-- The rounded operations of a `double`.
module _ {F : Type 0} ⦃d : Double F⦄ where
  infixl 65 ◌⊕◌ ◌⊖◌
  infixl 70 ◌⊗◌ ◌⊘◌
  infix 50 ◌≼◌
  abbrev pub nought : F
  nought = d.nought

  abbrev pub of_ℕ : ℕ → F
  of_ℕ = d.of_ℕ

  abbrev pub ◌⊕◌ : F → F → F
  ◌⊕◌ = d.add

  abbrev pub ◌⊖◌ : F → F → F
  ◌⊖◌ = d.sub

  abbrev pub ◌⊗◌ : F → F → F
  ◌⊗◌ = d.mul

  abbrev pub ◌⊘◌ : F → F → F
  ◌⊘◌ = d.quot

  abbrev pub lt : F → F → Bool
  lt = d.lt

  abbrev pub le : F → F → Bool
  le = d.le

  abbrev pub ne : F → F → Bool
  ne x y = not (d.eq x y)

  -- `std::min(a, b)` is `b < a ? b : a`, and `std::max(a, b)` is `a < b ? b : a`.
  abbrev pub fmin : F → F → F
  fmin a b = if lt b a then b else a

  abbrev pub fmax : F → F → F
  fmax a b = if lt a b then b else a

  -- `std::max(-lim, std::min(lim, v))`, which four components write.
  unfoldable pub clamp : F → F → F
  clamp v lim = fmax (d.neg lim) (fmin lim v)

  abbrev pub ◌≼◌ : F → F → Type 0
  x ≼ y = d.le x y ≡ true

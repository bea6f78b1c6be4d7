-- ===== src/Rsi/Frame.antt =====
-- The two frames of the RSI channel, and their parser and printer (src/rsi_frame.cpp).
use kuka_iiqka_ros.Prelude.{
  ℕ, List, [], ◌∷◌, Option, none, some, ◌==◌, leb, ◌||◌, length, if◌then◌else◌,
}
use kuka_iiqka_ros.Prelude.Int.{ℤ, pos}
use kuka_iiqka_ros.Double.{Double, nought}
use kuka_iiqka_ros.Sfc.Types.{CartesianState, CartesianCorrection}
use kuka_iiqka_ros.Xml.{Xml, ◌>>=◌}

pub record Axes (F : Type 0) : Type 0 where
  pub a1 : F
  pub a2 : F
  pub a3 : F
  pub a4 : F
  pub a5 : F
  pub a6 : F

-- A frame with `valid` set; `none` stands for one without.
pub record RobFrame (F : Type 0) : Type 0 where
  pub pose : CartesianState F
  pub axis_deg : Axes F
  pub delay : F
  pub mode : ℤ
  pub ipoc : ℕ

pub record SenFrame (F : Type 0) : Type 0 where
  pub corr : CartesianCorrection F
  pub stop : ℕ
  pub watchdog : ℕ
  pub ipoc : ℕ

module _ {E F : Type 0} ⦃d : Double F⦄ (xml : Xml E F) where
  -- `readAttrs` for the names of a pose, and of the axes.
  read_pose : E → Option (CartesianState F)
  read_pose e = do
    x ← xml.double_attribute e "X"
    y ← xml.double_attribute e "Y"
    z ← xml.double_attribute e "Z"
    a ← xml.double_attribute e "A"
    b ← xml.double_attribute e "B"
    c ← xml.double_attribute e "C"
    some (record { x = x; y = y; z = z; a = a; b = b; c = c })

  read_axes : E → Option (Axes F)
  read_axes e = do
    a1 ← xml.double_attribute e "A1"
    a2 ← xml.double_attribute e "A2"
    a3 ← xml.double_attribute e "A3"
    a4 ← xml.double_attribute e "A4"
    a5 ← xml.double_attribute e "A5"
    a6 ← xml.double_attribute e "A6"
    some (record { a1 = a1; a2 = a2; a3 = a3; a4 = a4; a5 = a5; a6 = a6 })

  or_else : {A : Type 0} → A → Option A → A
  or_else v none = v
  or_else v (some a) = a

  unfoldable pub parse_rob_frame : List ℕ → Option (RobFrame F)
  unfolding read_pose read_axes or_else
  parse_rob_frame [] = none
  parse_rob_frame (byte ∷ bytes) = do
    doc ← xml.parse (byte ∷ bytes)
    rob ← xml.first_child doc "Rob"
    rist ← xml.first_child rob "RIst"
    aipos ← xml.first_child rob "AIPos"
    ipoc ← xml.first_child rob "IPOC"
    pose ← read_pose rist
    axes ← read_axes aipos
    ipoc_text ← xml.text ipoc
    ipoc_value ← xml.scan_u64 ipoc_text
    some (record {
      pose = pose;
      axis_deg = axes;
      delay = or_else nought (xml.first_child rob "Delay" >>= λ e. xml.double_attribute e "D");
      mode = or_else (pos 0) (xml.first_child rob "Mode" >>= λ e. xml.int_attribute e "M");
      ipoc = ipoc_value;
    })

-- `print` is what `snprintf` prints of a frame; `none` is a length of 0, for a frame that does not
-- fit with its final NUL.
unfoldable pub serialize_sen_frame :
    {F : Type 0} → (SenFrame F → List ℕ) → SenFrame F → ℕ → Option (List ℕ)
serialize_sen_frame print frame buf_size =
    let n = length (print frame) in if n == 0 || leb buf_size n then none else some (print frame)

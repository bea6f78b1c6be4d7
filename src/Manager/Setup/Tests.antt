-- ===== src/Manager/Setup/Tests.antt =====
-- A payload that is applied over another one and loaded, and the parameters of a node.
use text.Mathlib.Text.{◌==◌}
use kuka_iiqka_ros.Prelude.{
  ℕ, Bool, true, false, String, [], ◌∷◌, Option, some, none, ◌≡◌, refl, if◌then◌else◌,
}
use kuka_iiqka_ros.Prelude.Int.{pos, negsuc}
use kuka_iiqka_ros.Double.Fixed.{Fixed, num, fixed_double}
use kuka_iiqka_ros.Params.{Params}
use kuka_iiqka_ros.Sfc.Types.{Wrench}
use kuka_iiqka_ros.Sfc.Payload.{PayloadFitResult}
use kuka_iiqka_ros.Manager.Sequencer.{CalPose}
use kuka_iiqka_ros.Manager.Setup.{
  NodeConfig, PayloadAnswers, apply_payload, in_namespace, load_config, set_double, set_doubles,
}
use kuka_iiqka_ros.Manager.Setup.Reload.{apply_payload-init}
use kuka_iiqka_ros.Controllers.ComplianceShell.{Controller, configure_controller}
use kuka_iiqka_ros.Controllers.ComplianceShell.Tests.{controller}
use kuka_iiqka_ros.Controllers.Loading.{no_profile, load_profile, with_shared, init_compliance}

abbrev weight : String → Option Fixed
weight name = if name == "/fcc/payload/gravity_n" then some (num (pos 9)) else none

abbrev server : Params Fixed
server = record {
  double = weight;
  doubles = λ name. none;
  int = λ name. if name == "calibration/samples_per_pose" then some (negsuc 4) else none;
  bool = λ name. none;
  string = λ name. none;
}

abbrev fit : PayloadFitResult Fixed
fit =
    let v = num (pos 2) in
    let bias : Wrench Fixed = record { fx = v; fy = v; fz = v; tx = v; ty = v; tz = num (pos 1) } in
    record {
      ok = true;
      params = record { gravity_n = num (pos 7); com_x = v; com_y = v; com_z = v; bias = bias };
      r2_force = v;
      r2_torque = v;
    }

abbrev two : Fixed → String
two x = "2"

-- A reload that fails, at the next start of the controller.
abbrev answers : PayloadAnswers
answers = record { opens = true; unloads = some true; loads = none }

abbrev all : String → Bool
all name = true

abbrev set_up : Controller Fixed Fixed
set_up =
    let ps = in_namespace (apply_payload two server none "fcc" "now" fit answers).params "/fcc" in
    let drag = with_shared ps (load_profile ps "drag" true no_profile) in
    let precision = with_shared ps (load_profile ps "precision" false no_profile) in
    record (configure_controller controller drag precision) { has_publisher = true }

apply_payload-init_example :
    (set_up.core.compensator ≡ fit.params)
    × (set_up.drag_params.payload ≡ fit.params)
    × (set_up.precision_params.payload ≡ fit.params)
unfolding apply_payload in_namespace set_doubles set_double
apply_payload-init_example =
    apply_payload-init two server none "fcc" "now" fit answers all controller set_up refl
      (unfold init_compliance in refl)

-- With no file to open, the server is as it was.
unopened :
    ((apply_payload two server (some "old") "fcc" "now" fit (record answers { opens = false })).file
      ≡ some "old")
    × ((apply_payload two server none "fcc" "now" fit answers).ok ≡ false)
unfolding apply_payload
unopened = (refl, refl)

-- A node with no pose does not come up, and a negative number of wrenches for each pose is 0.
abbrev pose : CalPose Fixed
pose = record { a = num (pos 1); b = num (pos 2); c = num (pos 3) }

abbrev samples_of : Option (NodeConfig Fixed) → Option ℕ
samples_of none = none
samples_of (some cfg) = some cfg.manager.calibration.samples_per_pose

comes_up :
    (load_config server (some []) "/share" ≡ none)
    × (load_config server none "/share" ≡ none)
    × (samples_of (load_config server (some (pose ∷ [])) "/share") ≡ some 0)
unfolding load_config
comes_up = (refl, refl, refl)

-- ===== src/Controllers/Loading/Tests.antt =====
-- A parameter server that sets the limits to 5 and 3, the filter of a profile and the mount.
use text.Mathlib.Text.{◌==◌}
use kuka_iiqka_ros.Prelude.{
  Bool, true, false, String, [], ◌∷◌, Option, some, none, ◌≡◌, refl, if◌then◌else◌,
}
use kuka_iiqka_ros.Prelude.Int.{pos}
use kuka_iiqka_ros.Double.Fixed.{Fixed, num, nan, fixed_double, Fixed-IsOrdered}
use kuka_iiqka_ros.Params.{Params}
use kuka_iiqka_ros.Sfc.Turns.{turns_libm, turns_eigen}
use kuka_iiqka_ros.Sfc.Limiter.Bounds.{InLimits}
use kuka_iiqka_ros.Controllers.ComplianceShell.{Controller, configure_controller}
use kuka_iiqka_ros.Controllers.ComplianceShell.Tests.{controller, seen, at}
use kuka_iiqka_ros.Controllers.Loading.{
  no_safety, no_profile, load_safety, load_profile, with_shared, init_compliance,
}
use kuka_iiqka_ros.Controllers.Loading.Limits.{Event, cycles, stops, run, step, init-InLimits}

abbrev limit : String → Option Fixed
limit name =
    if name == "safety/max_corr_trans"
    then some (num (pos 5))
    else if name == "safety/max_corr_rot"
    then some (num (pos 3))
    else if name == "profiles/drag/filter_cutoff_hz"
    then some (num (pos 7))
    else none

abbrev server : Params Fixed
server = record {
  double = limit;
  doubles = λ name. some (num (pos 1) ∷ num (pos 2) ∷ []);
  int = λ name. none;
  bool = λ name. none;
  string = λ name. none;
}

abbrev has_tcp : String → Bool
has_tcp name = name == "kuka_tcp"

-- The drag profile ramps and retares by default, and two angles are no mount.
loads :
    ((load_profile server "drag" true no_profile).filter_cutoff_hz ≡ num (pos 7))
    × ((load_profile server "drag" true no_profile).retare.enabled ≡ true)
    × ((load_profile server "precision" false no_profile).filter_cutoff_hz ≡ num (pos 10))
    × ((load_safety server no_safety).max_corr_rot ≡ num (pos 3))
unfolding load_profile no_profile load_safety
loads = (refl, refl, refl, refl)

abbrev set_up : Controller Fixed Fixed
set_up =
    let drag = with_shared server (load_profile server "drag" true no_profile) in
    let precision = with_shared server (load_profile server "precision" false no_profile) in
    record (configure_controller controller drag precision) { has_publisher = true }

abbrev shakes : Event Fixed
shakes =
    cycles (record { seen = seen; state = at nan; now_s = num (pos 9); dt = nan; locked = false })

init-InLimits_example :
    InLimits (load_safety server no_safety) (step (run set_up (shakes ∷ stops ∷ [])) shakes).command
init-InLimits_example =
    init-InLimits Fixed-IsOrdered server has_tcp controller set_up (shakes ∷ stops ∷ []) shakes
      (unfold load_safety in record { trans = refl; rot = refl }) (unfold init_compliance in refl)

-- ===== src/Controllers/MoveAction/Tests.antt =====
-- An action that is preempted, and one that is refused.
use kuka_iiqka_ros.Prelude.{true, false, List, [], ◌∷◌, some, ◌≡◌, refl}
use kuka_iiqka_ros.Prelude.Int.{pos, negsuc}
use kuka_iiqka_ros.Double.{nought}
use kuka_iiqka_ros.Double.Fixed.{Fixed, num, fixed_double}
use kuka_iiqka_ros.Sfc.Motion.{running, inactive}
use kuka_iiqka_ros.Controllers.CartesianShell.{Controller, request_goal, request_cancel}
use kuka_iiqka_ros.Controllers.CartesianShell.Tests.{goal, controller}
use kuka_iiqka_ros.Controllers.MoveAction.{
  preempted, position_target, refuse, poll, verdict_of, Turn, follow, execute_cb, feedback_of,
  patience,
}
use kuka_iiqka_ros.Controllers.MoveAction.Endings.{Released, execute_cb-Released}

abbrev engaged : Controller Fixed
engaged = record controller { published = record (controller.published) { is_engaged = true } }

-- The cycles take the goal, and then the cancel.
abbrev turns : List (Turn Fixed)
turns =
    record {
      meanwhile =
          λ s. record s { published = record (s.published) { applied_seq = 1; status = running } };
      late = false;
      preempt = true;
    }
    ∷ record {
      meanwhile =
          λ s. record s { published = record (s.published) { applied_seq = 2; status = inactive } };
      late = false;
      preempt = true;
    }
    ∷ []

ends :
    ((execute_cb goal engaged false goal turns).1 ≡ some preempted)
    × ((execute_cb goal engaged true goal turns).1 ≡ some position_target)
unfolding execute_cb follow poll verdict_of refuse request_goal request_cancel
ends = (refl, refl)

feeds_back :
    (patience goal ≡ num (pos 9))
    × ((feedback_of (num (negsuc 0)) (num (pos 6))).0 ≡ num (pos 6))
    × ((feedback_of (num (negsuc 0)) nought).1.progress ≡ nought)
unfolding patience feedback_of
feeds_back = (refl, refl, refl)

execute_cb-Released_example :
    Released (request_goal engaged goal).1 (execute_cb goal engaged false goal turns).0
execute_cb-Released_example =
    execute_cb-Released goal engaged false goal turns (unfold refuse in refl)

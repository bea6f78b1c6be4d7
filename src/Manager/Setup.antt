-- ===== src/Manager/Setup.antt =====
-- The node of the manager (src/manager_node.cpp) around the runtime: its parameters, its hook that
-- applies a payload, with the text of src/payload_yaml.cpp, its messages and its preloading.
mod Reload
mod Tests
use Prim.Native.String.{◌++◌, slice}
use text.Mathlib.Text.{◌==◌}
use kuka_iiqka_ros.Prelude.{
  ℕ, Bool, true, false, not, ◌&&◌, String, List, [], ◌∷◌, Option, none, some, if◌then◌else◌,
}
use kuka_iiqka_ros.Prelude.Int.{ℤ, pos, negsuc}
use kuka_iiqka_ros.Double.{Double, nought, of_ℕ}
use kuka_iiqka_ros.Xml.{value_or}
use kuka_iiqka_ros.Params.{Params, fraction}
use kuka_iiqka_ros.Sfc.Payload.{PayloadParams, PayloadFitResult}
use kuka_iiqka_ros.Manager.State.{value}
use kuka_iiqka_ros.Manager.Sequencer.{CalPose}
use kuka_iiqka_ros.Manager.Runtime.{ManagerConfig, Runtime, set_controllers_loaded}
use kuka_iiqka_ros.Manager.Node.{ManagerSnapshot, ControllerState, loaded_or_loads}

pub record NodeConfig (F : Type 0) : Type 0 where
  pub manager : ManagerConfig F
  pub tick_period_s : F
  pub goal_speed_scale : F
  pub payload_file : String

-- A `samples_per_pose` below 1 is refused by `start` of the sequencer, as 0 is.
abbrev count_of : ℤ → ℕ
count_of (pos n) = n
count_of (negsuc n) = 0

module _ {F : Type 0} ⦃d : Double F⦄ where
  -- `poses` is what the parameter `calibration/poses` holds, if it is a list, and `share` the directory
  -- of the package soft_robot_bringup. With no pose the node ends.
  unfoldable pub load_config : Params F → Option (List (CalPose F)) → String → Option (NodeConfig F)
  load_config ps poses share =
      let file = value_or "" (ps.string "payload_file") in
      let found = value_or [] poses in
      let cfg : NodeConfig F = record {
        manager = record {
          eki_state_timeout_s = value_or (of_ℕ 5) (ps.double "eki_state_timeout_s");
          rsi_state_timeout_s = value_or (fraction 5 10) (ps.double "rsi_state_timeout_s");
          sri_status_timeout_s = value_or (of_ℕ 2) (ps.double "sri_status_timeout_s");
          tool_sync_retry_s = value_or (of_ℕ 2) (ps.double "tool_sync_retry_s");
          rsi_connect_wait_s = value_or (of_ℕ 5) (ps.double "rsi_connect_wait_s");
          compliance_controller =
              value_or "force_compliance_controller" (ps.string "compliance_controller");
          correction_controller =
              value_or "cartesian_correction_controller" (ps.string "correction_controller");
          calibration = record {
            poses = found;
            return_pose = record {
              a = value_or nought (ps.double "calibration/return_pose/a");
              b = value_or nought (ps.double "calibration/return_pose/b");
              c = value_or nought (ps.double "calibration/return_pose/c");
            };
            settle_time_s = value_or (of_ℕ 1) (ps.double "calibration/settle_time_s");
            samples_per_pose =
                count_of (value_or (pos 100) (ps.int "calibration/samples_per_pose"));
          };
        };
        tick_period_s = value_or (fraction 1 10) (ps.double "tick_period_s");
        goal_speed_scale = value_or (of_ℕ 1) (ps.double "goal_speed_scale");
        payload_file = if file == "" then share ++ "/config/payload.yaml" else file;
      } in
      elim found [ [] ↦ none | p ∷ rest ↦ some cfg ]

-- `ros::param::set` of a `double`, as what reads a `double` sees it.
module _ {F : Type 0} where
  unfoldable pub set_double : Params F → String → F → Params F
  set_double ps name v = record ps { double = λ n. if n == name then some v else ps.double n }

  -- Values under a namespace, in order.
  unfoldable pub set_doubles : Params F → String → List (String × F) → Params F
  set_doubles ps ns [] = ps
  set_doubles ps ns ((name, v) ∷ rest) = set_doubles (set_double ps (ns ++ name) v) ns rest

  -- The node handle of a controller: its names are below a namespace.
  unfoldable pub in_namespace : Params F → String → Params F
  in_namespace ps ns = record {
    double = λ n. ps.double (ns ++ ("/" ++ n));
    doubles = λ n. ps.doubles (ns ++ ("/" ++ n));
    int = λ n. ps.int (ns ++ ("/" ++ n));
    bool = λ n. ps.bool (ns ++ ("/" ++ n));
    string = λ n. ps.string (ns ++ ("/" ++ n));
  }

  -- The parameters of a payload, by their names.
  abbrev pub payload_values : PayloadParams F → List (String × F)
  payload_values p =
      ("gravity_n", p.gravity_n)
      ∷ ("com_x", p.com_x)
      ∷ ("com_y", p.com_y)
      ∷ ("com_z", p.com_z)
      ∷ ("bias_fx", p.bias.fx)
      ∷ ("bias_fy", p.bias.fy)
      ∷ ("bias_fz", p.bias.fz)
      ∷ ("bias_tx", p.bias.tx)
      ∷ ("bias_ty", p.bias.ty)
      ∷ ("bias_tz", p.bias.tz)
      ∷ []

-- `print6` is the format `%.6f`; the buffer of a line has room for 95 bytes.
module _ {F : Type 0} (print6 : F → String) where
  abbrev lines : List (String × F) → String
  lines [] = ""
  lines ((key, v) ∷ rest) =
      slice ("    " ++ (key ++ (": " ++ (print6 v ++ "\n")))) 0 95 ++ lines rest

  unfoldable pub emit_payload_yaml : PayloadFitResult F → String → String
  emit_payload_yaml fit timestamp =
      "# payload.yaml - written by soft_force_control_manager (spec 9).\n"
      ++ ("# Loaded by soft_robot_bringup at startup to override the\n"
          ++ ("# force_compliance_controller payload block. Do not edit by hand.\n"
              ++ ("force_compliance_controller:\n"
                  ++ ("  payload:\n"
                      ++ (lines (payload_values fit.params)
                          ++ ("soft_robot_manager:\n  payload_fit:\n"
                              ++ (lines
                                    (("r2_force", fit.r2_force) ∷ ("r2_torque", fit.r2_torque) ∷ [])
                                  ++ ("    timestamp: \"" ++ (timestamp ++ "\"\n")))))))))

-- What `applyPayload` meets: whether the file opens, and what the services to unload and to load a
-- controller answer, if they do.
pub record PayloadAnswers : Type 0 where
  pub opens : Bool
  pub unloads : Option Bool
  pub loads : Option Bool

-- `c.call(srv) && srv.response.success`, of what a service answers, if it does.
abbrev pub call_trigger : Option Bool → Bool
call_trigger none = false
call_trigger (some success) = success

-- The parameter server, the file, and what the hook returns.
pub record Applied (F : Type 0) : Type 0 where
  pub params : Params F
  pub file : Option String
  pub ok : Bool

module _ {F : Type 0} (print6 : F → String) where
  unfoldable pub apply_payload :
      Params F → Option String → String → String → PayloadFitResult F → PayloadAnswers → Applied F
  apply_payload ps file controller timestamp fit a =
      if not a.opens then record { params = ps; file = file; ok = false } else record {
        params = set_doubles ps (("/" ++ controller) ++ "/payload/") (payload_values fit.params);
        file = some (emit_payload_yaml print6 fit timestamp);
        ok = call_trigger a.unloads && call_trigger a.loads;
      }

pub record ToolFrame (F : Type 0) : Type 0 where
  pub x : F
  pub y : F
  pub z : F
  pub a : F
  pub b : F
  pub c : F
  pub valid : Bool

-- What the service `get_tool` answers: whether it succeeds, and the frame.
module _ {F : Type 0} ⦃d : Double F⦄ where
  abbrev pub no_tool : ToolFrame F
  no_tool = record {
    x = nought;
    y = nought;
    z = nought;
    a = nought;
    b = nought;
    c = nought;
    valid = false;
  }

  unfoldable pub eki_get_tool : Option (Bool × ToolFrame F) → ToolFrame F
  eki_get_tool none = no_tool
  eki_get_tool (some (success, t)) = if not success then no_tool else record t { valid = true }

-- The message on the state topic, without its stamp.
pub record ManagerState : Type 0 where
  pub system_state : ℕ
  pub mode : ℕ
  pub profile : ℕ
  pub eki_connected : Bool
  pub eki_program_ready : Bool
  pub rsi_connected : Bool
  pub rsi_fault : Bool
  pub sri_streaming : Bool
  pub tool_synced : Bool
  pub calibrating : Bool
  pub active_controller : String

-- What a turn of the preloading meets, for a controller: what the services to list and to load
-- answer.
pub record Preloading : Type 0 where
  pub listed : Option (List ControllerState)
  pub loads : Option Bool

abbrev loaded : Preloading → String → Bool
loaded p name = loaded_or_loads p.listed (call_trigger p.loads) name

module _ {F : Type 0} where
  unfoldable pub state_message : ManagerSnapshot F → ManagerState
  state_message s = record {
    system_state = value s.state;
    mode = s.mode;
    profile = s.profile;
    eki_connected = s.health.eki_link;
    eki_program_ready = s.health.eki_program_ready;
    rsi_connected = s.health.rsi_connected;
    rsi_fault = s.health.rsi_fault;
    sri_streaming = s.health.sri_streaming;
    tool_synced = s.health.tool_synced;
    calibrating = s.calibrating;
    active_controller = s.active_controller;
  }

  -- A turn of the thread that preloads, and whether it ends.
  unfoldable pub preload_turn :
      ManagerConfig F → Runtime F → Preloading → Preloading → Runtime F × Bool
  preload_turn cfg r first second =
      if loaded first cfg.compliance_controller && loaded second cfg.correction_controller
      then (set_controllers_loaded r true, true)
      else (r, false)

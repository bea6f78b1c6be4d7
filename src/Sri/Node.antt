-- ===== src/Sri/Node.antt =====
-- The node of the sensor driver (src/sri_driver_node.cpp): its parameters, its messages, and the
-- responses of its services.
use kuka_iiqka_ros.Prelude.{ℕ, Bool, String, Option, if◌then◌else◌}
use kuka_iiqka_ros.Prelude.Int.{ℤ, pos, negsuc}
use kuka_iiqka_ros.Double.{Double, nought, of_ℕ}
use kuka_iiqka_ros.Xml.{value_or}
use kuka_iiqka_ros.Params.{Params, fraction, port_of_int}
use kuka_iiqka_ros.Sfc.Types.{Wrench}
use kuka_iiqka_ros.Sri.Session.{SriSessionConfig, SriWrenchSample}
use kuka_iiqka_ros.Sri.Driver.{SriDriverStatus}

pub record SriDriverConfig (F : Type 0) : Type 0 where
  pub sensor_ip : String
  pub sensor_port : ℕ
  pub connect_timeout_ms : ℤ
  pub receive_timeout_ms : ℤ
  pub reconnect_backoff_s : F
  pub session : SriSessionConfig F

-- With the time that `zero` waits, and the frame of the wrenches.
pub record NodeConfig (F : Type 0) : Type 0 where
  pub driver : SriDriverConfig F
  pub zero_timeout_ms : ℤ
  pub frame_id : String

-- The message on the wrench topic, with the time at which it is sent.
pub record WrenchStamped (F : Type 0) : Type 0 where
  pub stamp_s : F
  pub frame_id : String
  pub wrench : Wrench F

-- The message on the status topic, without its stamp.
pub record SriStatus (F : Type 0) : Type 0 where
  pub connected : Bool
  pub streaming : Bool
  pub reconnects : ℕ
  pub samples : ℕ
  pub bad_frames : ℕ
  pub package_gaps : ℕ
  pub zero_rejects : ℕ
  pub last_sample_age : Option F
  pub zero_active : Bool
  pub filter_cutoff_hz : F

-- The number of samples of a tare; one below 1 captures nothing, as 0 does.
abbrev count_of : ℤ → ℕ
count_of (pos n) = n
count_of (negsuc n) = 0

module _ {F : Type 0} ⦃d : Double F⦄ where
  unfoldable pub load_config : Params F → NodeConfig F
  load_config ps = record {
    driver = record {
      sensor_ip = value_or "192.168.1.1" (ps.string "sensor_ip");
      sensor_port = port_of_int (value_or (pos 4008) (ps.int "sensor_port"));
      connect_timeout_ms = value_or (pos 1000) (ps.int "connect_timeout_ms");
      receive_timeout_ms = value_or (pos 50) (ps.int "receive_timeout_ms");
      reconnect_backoff_s = value_or (fraction 5 10) (ps.double "reconnect_backoff_s");
      session = record {
        sample_timeout_s = value_or (fraction 1 10) (ps.double "sample_timeout_s");
        nominal_rate_hz = value_or (of_ℕ 250) (ps.double "nominal_rate_hz");
        zero_sample_count = count_of (value_or (pos 100) (ps.int "zero_sample_count"));
        filter_cutoff_hz = value_or nought (ps.double "filter_cutoff_hz");
        bias_limit_n = value_or (of_ℕ 120) (ps.double "bias_limit_n");
      };
    };
    zero_timeout_ms = value_or (pos 3000) (ps.int "zero_timeout_ms");
    frame_id = value_or "sri_ft_link" (ps.string "frame_id");
  }

  unfoldable pub wrench_message : String → SriWrenchSample F → F → WrenchStamped F
  wrench_message frame_id s now_s = record { stamp_s = now_s; frame_id = frame_id; wrench = s.w }

  unfoldable pub status_message : SriDriverStatus F → SriStatus F
  status_message st = record {
    connected = st.connected;
    streaming = st.session.streaming;
    reconnects = st.reconnects;
    samples = st.session.samples;
    bad_frames = st.session.bad_frames;
    package_gaps = st.session.package_gaps;
    zero_rejects = st.session.zero_rejects;
    last_sample_age = st.session.last_sample_age_s;
    zero_active = st.session.zero_active;
    filter_cutoff_hz = st.session.filter_cutoff_hz;
  }

-- Of what `requestZero` and `setFilterCutoff` return.
unfoldable pub zero_response : Bool → Bool × String
zero_response success =
    (success, if success then "tare captured" else "tare failed: no stream or bias above limit")

unfoldable pub filter_response : Bool → Bool × String
filter_response success = (success, if success then "filter updated" else "cutoff_hz must be >= 0")

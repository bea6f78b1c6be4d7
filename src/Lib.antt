-- ===== src/Lib.antt =====
-- Control of a KUKA robot by force (ros_ws/src), over the RSI and EKI channels of its controller and
-- a SRI force sensor.
--
-- The robot controller asks for a correction of its path in each RSI cycle. The hardware interface
-- (kuka_rsi_hw_interface) answers it with what the ROS controllers (soft_robot_controllers) wrote,
-- clamped, or with a stop. The controllers compute it from operator commands or from the forces that
-- the sensor driver (sri_force_torque_driver) reads, and the numeric parts of that are the library
-- soft_force_control_core. The EKI bridge (kuka_eki_bridge) starts and stops the RSI program of the
-- robot. The manager (soft_force_control_manager) watches all of them, and holds the state machine
-- and the commands of the operator.
--
-- Files, and what they model (paths below ros_ws/src):
--   Manager/State        soft_force_control_manager/src/system_state_core.cpp: `update` is
--                        SystemStateCore::update, `request_start` is requestStart, and so on
--   Manager/Sequencer    src/calibration_sequencer.cpp there: `tick`, `on_wrench`,
--                        `on_motion_result` and the other methods of CalibrationSequencer
--   Manager/Runtime      src/manager_runtime.cpp: the members under the mutex, the feeds,
--                        healthLocked and the part of a worker's turn under the mutex
--   Manager/World        the hooks of ManagerOps, and switchFiltered
--   Manager/Commands     startServo, stopServo, resetFault, zeroSensor, beginCalibration and a
--                        whole turn of the worker
--   Manager/Node         src/manager_node.cpp: the turn of the calibration action, and what the
--                        hooks make of the services of the controller manager
--   Manager/Setup        its parameters, its hooks and messages, its preloading, and
--                        src/payload_yaml.cpp
--   Manager/Inbound      the topics that it hears, from the messages of the other nodes
--   Rsi/Frame            kuka_rsi_hw_interface/src/rsi_frame.cpp
--   Rsi/Monitor          src/rsi_session_monitor.cpp there
--   Rsi/Limiter          src/command_limiter.cpp
--   Rsi/Hardware         src/kuka_rsi_robot_hw.cpp: `read`, `write`
--   Rsi/Udp              src/udp_transport.cpp
--   Rsi/Node             src/kuka_rsi_hw_interface_node.cpp and `init` of src/kuka_rsi_robot_hw.cpp:
--                        the loop over the socket
--   Sri/Frame            sri_force_torque_driver/src/sri_frame.cpp, and the frames of
--                        src/sri_mock_server.cpp
--   Sri/MockServer       src/sri_mock_server.cpp, but for its sockets and its clock
--   Sri/Session          src/sri_stream_session.cpp there
--   Eki/Session          kuka_eki_bridge/src/eki_session_core.cpp
--   Eki/Bridge           src/eki_bridge_runtime.cpp there: what `execute` and the io thread do
--                        under the mutex
--   Eki/Runtime          EkiBridgeRuntime::run there: whole turns of the io thread
--   Eki/Node             src/eki_bridge_node.cpp
--   Eki/Transport        src/tcp_client_transport.cpp, which the sensor driver has a copy of
--   Rsi/Mock             kuka_rsi_hw_interface/src/rsi_mock_core.cpp, and receiveReplyWindow of
--                        src/rsi_mock_server.cpp; Rsi/Mock/Loop runs it against Rsi/Hardware
--   Sri/Driver, Node     sri_force_torque_driver/src/sri_driver_runtime.cpp, sri_driver_node.cpp
--   Eki/Frame            kuka_eki_bridge/src/eki_frame.cpp
--   Eki/Splitter         src/eki_stream_splitter.cpp there
--   Eki/MockServer       src/eki_mock_server.cpp, but for its sockets, its thread and its clock;
--                        Eki/MockServer/Execute runs Eki/Bridge against it
--   Eki/Receive          the part of EkiBridgeRuntime::run that passes received bytes to the
--                        splitter, the parser and the session
--   Controllers/Gate     soft_robot_controllers/src/controller_mode_gate.cpp
--   Controllers/Direct   src/direct_correction_core.cpp there
--   Controllers/Compliance, ComplianceData
--                        src/force_compliance_core.cpp
--   Controllers/CartesianShell, MoveAction
--                        src/cartesian_correction_controller.cpp: the cycle, and the action
--   Controllers/ComplianceShell
--                        src/force_compliance_controller.cpp
--   Controllers/Loading  `init` of both controllers, over the parameter server
--   Sfc/Types, Payload,  soft_force_control_core: types.h, payload_estimator.cpp,
--   Limiter, Modes,      safety_limiter.cpp, mode_manager_core.cpp, force_torque_filter.cpp
--   Filter
--   Sfc/Law, Deadband,   compliance_law.cpp, adaptive_deadband.cpp, auto_retare.cpp,
--   Retare, Motion       orientation_motion_core.cpp there
--   Sfc/Frames, Rotation frame_resolver.cpp, tool_gravity_compensator.cpp and rotation.h there, over
--                        what they call of Eigen and of the C library; Sfc/Turns has an instance
--                        for the tests
--   Double               what the code uses of `double`, as a record of operations; Double/Order has
--                        the laws of IEEE comparisons, with NaN, that the proofs use, and
--                        Double/Fixed an instance of whole numbers and NaN for the tests
--   Params               the ROS parameter server, as functions from names to values
--   Xml                  what the code uses of tinyxml2, sscanf and snprintf, as parameters
--   Prelude              the names and lemmas that all share
--
-- The state of an object is a record, and a method a function from the state before to the state
-- after, with its result. A `std::uint32_t` or `std::uint64_t` counter keeps its wrap-around. A time
-- that the code sets to -1 before the first event is an `Option`. Where threads share a mutex, each
-- section under it is one function; in Manager/World a sequence of answers says what the hooks
-- return, what the clock shows and what the other threads do in between, so a theorem for every
-- sequence is one for every schedule. The loop of startServo that waits for the RSI stream runs on
-- fuel: `ClockPasses` says that the clock passes the deadline within that many turns, and then the
-- fuel is enough. The least-squares fit of the payload is a parameter of the sequencer.
--
-- The controllers read realtime buffers, each of which gives a cycle the value written last or an
-- earlier one: what a cycle gets is an argument of it. The loop of the EKI splitter runs on fuel: the
-- bytes of its buffer and one more are enough, since each turn takes bytes out, and so
-- they are for the loop of Eki/MockServer that cuts commands.
--
-- The sockets of Eki/Transport and Rsi/Udp stand over what the calls of the operating system answer,
-- which are arguments: a theorem for all of them is one for every network. The loop of `send` takes an
-- answer in each turn, and has not ended where there is none left.
--
-- Not modelled: the operating system itself, the scheduling of threads but for the sections that they
-- post, what ROS does with messages, services and parameters, the code of the Eigen library, the
-- least-squares fit of the payload, the listening sockets of the simulated peers, and the parts in
-- Python, JavaScript and KRL.
pub mod Prelude
pub mod Double
pub mod Sfc
pub mod Xml
pub mod Params
pub mod Rsi
pub mod Sri
pub mod Manager
pub mod Eki
pub mod Controllers

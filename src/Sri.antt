-- ===== src/Sri.antt =====
-- Package sri_force_torque_driver (ros_ws/src/sri_force_torque_driver), namespace `sri`.
pub mod Frame
pub mod Session
pub mod Driver
pub mod Node
pub mod MockServer

-- ===== src/Manager.antt =====
-- Package soft_force_control_manager (ros_ws/src/soft_force_control_manager).
pub mod State
pub mod Sequencer
pub mod Runtime
pub mod World
pub mod Commands
pub mod Node
pub mod Setup
pub mod Inbound

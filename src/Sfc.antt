-- ===== src/Sfc.antt =====
-- Package soft_force_control_core (ros_ws/src/soft_force_control_core), namespace `sfc`.
pub mod Types
pub mod Limiter
pub mod Payload
pub mod Modes
pub mod Filter
pub mod Rotation
pub mod Frames
pub mod Law
pub mod Deadband
pub mod Retare
pub mod Motion
pub mod Turns

-- ===== src/Rsi.antt =====
-- Package kuka_rsi_hw_interface (ros_ws/src/kuka_rsi_hw_interface), namespace `kuka_rsi`.
pub mod Frame
pub mod Monitor
pub mod Limiter
pub mod Hardware
pub mod Udp
pub mod Node
pub mod Mock

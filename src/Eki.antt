-- ===== src/Eki.antt =====
-- Package kuka_eki_bridge (ros_ws/src/kuka_eki_bridge).
pub mod Session
pub mod Bridge
pub mod Frame
pub mod Splitter
pub mod Receive
pub mod Transport
pub mod Runtime
pub mod MockServer
pub mod Node
mod Tests

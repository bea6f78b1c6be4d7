-- ===== src/Controllers.antt =====
-- Package soft_robot_controllers (ros_ws/src/soft_robot_controllers).
pub mod Gate
pub mod Direct
pub mod ComplianceData
pub mod Compliance
pub mod CartesianShell
pub mod MoveAction
pub mod ComplianceShell
pub mod Loading

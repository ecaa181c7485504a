-- ===== src/Driver.antt =====
-- class PhysicarDriverNode of physicar_bringup/src/physicar_driver_node.cpp. `State` holds its members,
-- `Arbitration` the teleop sources, `Drive` speed and steering, `Camera` pan and tilt, `Battery` and
-- `Joints` what is published, and `Node` the callbacks as steps.
pub mod State
pub mod Arbitration
pub mod Drive
pub mod Camera
pub mod Battery
pub mod Joints
pub mod Node
pub mod Calibration
pub mod Lifecycle
mod Tests

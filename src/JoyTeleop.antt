-- ===== src/JoyTeleop.antt =====
-- physicar_teleop/src/joy_teleop_node.cpp: the joystick teleop. `F` stands for `double`, and for the
-- `float` of sensor_msgs/msg/Joy, which the code converts to `double` without a change of value.
pub mod State
pub mod Tick
pub mod Mapping
pub mod Start
mod Tests

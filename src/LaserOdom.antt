-- ===== src/LaserOdom.antt =====
-- physicar_laser_odom: odometry from the motion between consecutive laser scans. The modules follow
-- include/physicar_laser_odom/scan_matcher.hpp and src/laser_odom_node.cpp. `F` stands for `double`
-- and `G` for `float`.
pub mod Geometry
pub mod Points
pub mod Grid
pub mod Matcher
pub mod Node
mod Micro
mod Tests

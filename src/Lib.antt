-- ===== src/Lib.antt =====
-- The control software of the PhysiCar robot, its C++ nodes: the driver node that talks to the
-- boards and drives the car, the watchdog that restarts silent processes, the filter of the laser
-- scan, the odometry from laser scans, the node of the lidar, and the joystick teleop. Messages connect them: the teleop
-- publishes speed and steering and its status, by which the driver decides who owns the drive and
-- the camera.
--
-- physicar_bringup/src/physicar_driver_node.cpp:
--   Rosmaster   class RosmasterBoard: Transmit has send_cmd, set_pwm_servo and set_beep, Receive is
--               receive_loop, cut into the parts of its body, and Report is parse_data.
--   Gpio        class GpioPwmBoard: connect, disconnect, set_servo and set_duty_ns.
--   Servo       ServoLimits and ServoController, with the power law of the ESC.
--   Driver      PhysicarDriverNode: State has its members, Arbitration teleop_status_callback and
--               drive_engaged, Drive set_speed, odom_callback, cmd_vel_callback and the timer of the
--               command watchdog, Camera, Battery, Joints and Calibration the functions so named, and
--               Node its callbacks as the steps of one machine, to which Node/Callbacks adds the
--               service that sets the calibration and the timers that only publish; Lifecycle is what
--               the constructor and the destructor do to the boards.
-- physicar_bringup/src/topic_watchdog_node.cpp:
--   Watchdog    on_message, check and on_clock, and histories of them; Process is kill_process.
-- physicar_bringup/src/scan_filter_node.cpp:
--   ScanFilter  scan_callback.
-- physicar_teleop/src/joy_teleop_node.cpp:
--   JoyTeleop   Tick has on_joy, tick, publish_status and on_param_set, Mapping the mapping with its
--               file and the service srv_set, Start the constructor and srv_get.
-- physicar_laser_odom:
--   LaserOdom   include/physicar_laser_odom/scan_matcher.hpp is Geometry (Pose2D, scan_to_points), Grid
--               (GridIndex) and Matcher (ScanMatcher::match); src/laser_odom_node.cpp is Node, and
--               Node/Spec says what the node promises.
-- physicar_camera/src/format_mapping.cpp:
--   FormatMapping  the tables of pixel formats.
-- physicar_camera/src/cv_to_pv.cpp and pv_to_cv.cpp:
--   CameraControls  conversions between the camera's controls and the node's parameters.
-- physicar_camera/src/clamp.cpp, ParameterConflictHandler.cpp and ParameterHandler.cpp:
--   CameraBounds     clamping and the order of control values; Spans has the templates of clamp.cpp.
--   CameraConflicts  ParameterConflictHandler: auto exposure against an exposure time.
--   CameraParameters ParameterHandler: the callbacks that check parameters and apply them.
-- physicar_lidar/src/rplidar_node.cpp:
--   LidarNode   publish_scan; Motor has start, stop, set_scan_mode, the services and the standby, Loop
--               is work_loop. The commands to the lidar are a log, newest first.
-- Base, Double and StringMap are shared: lists, integers, the conditional, `double`, `std::map`.
--
-- State is a record for each class, and an operation is a function on it. What leaves the driver for
-- the boards is the log of Rosmaster/Hardware, newest first; what the teleop publishes is a list of
-- messages, oldest first. Functions of the same name have that name here; a handler that branches
-- deeply is cut into helpers that its own definition puts together.
--
-- `double` is a parameter `F` with the operations of `Double`; the laws of IEEE 754 that a theorem
-- needs are `IsOrdered` (comparisons, with NaN; constants of up to 10^6 units and six decimals are told
-- apart, which `float` does too) and `IsRounded` (monotone rounding, exact small integers), each with the
-- bounds within which `double` has them, and Double/Micro has both for whole millionths. JSON, the file
-- system, `std::stod` and `pgrep` are arguments too: `Host`, `Files`, `Process` and `killable`; so are Eigen (`Eigen`), the
-- stamps and quaternions of the laser odometry (`Ros`) and its transform tree (`TfBuffer`). Times are
-- arguments, nanoseconds as integers and the steady clock of the driver as `F`. The `float` of the
-- laser odometry is a parameter `G` with the same operations, and the theorems on its grid use the
-- laws `IsMonotone` of LaserOdom/Grid/Bounds. The conversion of a floating-point number to an integer
-- is total here, where C++ leaves it undefined out of range. The names and orders of libcamera are
-- `Controls`, `Orders` and `Library`; libcamera keeps a string as an array of its characters, and reading
-- them as strings, which the templates of the camera do, counts as a fault. What rclcpp does is a premise:
-- it calls the callbacks in the order of `set_parameters`, may turn a list down itself between the first
-- two, and then holds the values that were set (CameraParameters/Histories); `get_parameters` answers
-- with them or throws for a name that is not declared.
--
-- The loop of the receive thread runs on fuel, one for each round; every round takes a byte at least,
-- so that the length of the stream is enough. The iterations of the scan matcher run on the rounds that
-- are left. All other loops are on the list they go through.
--
-- The counters of the receive loop, int64_t times and the cells that a search of the scan matcher's
-- grid computes with have no bound here, nor has the squared distance of a camera's point, and writes
-- to one line do not interleave. A map that was moved from counts as empty. Logging, delays, the
-- serial line's settings, time stamps and constant fields of messages
-- are left out, as are the threads: the callbacks of a node run one after another. The declaration
-- of the camera's parameters and the rest of its node, which is another project's code with changes,
-- are not modelled, nor is the lidar SDK, which is another project's; of the lidar node the
-- declaration of the parameters and the printing of the device are left out, and what its driver and
-- executor do in a round is an argument (`Answers`, `Round`).
pub mod Base
pub mod Double
pub mod Rosmaster
pub mod Gpio
pub mod Servo
pub mod Driver
pub mod Watchdog
pub mod ScanFilter
pub mod StringMap
pub mod CameraControls
pub mod CameraConflicts
pub mod CameraBounds
pub mod CameraParameters
pub mod JoyTeleop
pub mod LaserOdom
pub mod FormatMapping
pub mod LidarNode

-- ===== src/Rosmaster.antt =====
-- class RosmasterBoard of physicar_bringup/src/physicar_driver_node.cpp: the serial protocol of the
-- expansion board. `Transmit` builds command frames, `Receive` is the loop of the receive thread and
-- `Report` decodes a report. The other children hold the theorems.
pub mod Hardware
pub mod Transmit
pub mod Report
pub mod Receive
mod Tests

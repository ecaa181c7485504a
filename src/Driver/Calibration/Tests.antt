-- ===== src/Driver/Calibration/Tests.antt =====
-- The theorems on the calibration, on concrete requests.
use physicar_ros.Base.{◌≡◌, inr, refl, true, false, none, []}
use physicar_ros.Double.Micro.{Micro, micro_double, dec, Micro-IsOrdered}
use physicar_ros.Driver.State.{initial}
use physicar_ros.Driver.Calibration.{Files, CalibrationRequest, Calibrated, defaults}
use physicar_ros.Driver.Calibration.Service.{set_calibration}
use physicar_ros.Driver.Calibration.Bounds.{IsInRange, set_calibration-IsInRange}
use physicar_ros.Driver.Calibration.Sync.{IsSynced, set_calibration-IsSynced}
use physicar_ros.Driver.Lifecycle.{shut_down}
use physicar_ros.Driver.Lifecycle.Neutral.{EndsNeutral, centred, shut_down-EndsNeutral}

abbrev files : Files Micro
files = record {
  file = none;
  find = λ s t p. none;
  stod = λ s. none;
  print = λ a b c r g. "";
  to_string = λ x. "";
  lower = λ s. s;
  write = λ s. (true, true);
}

abbrev car : Calibrated Micro
car = record {
  driver = initial (record { connected = true; accepts = λ _. true; log = [] });
  cal = defaults;
  parameters = defaults;
}

abbrev request : CalibrationRequest Micro
request = record {
  channel = "steering";
  center_value = dec 3 0;
  max_value = dec 0 0;
  bool_value = false;
}

in_range : IsInRange {F = Micro} defaults
in_range = record {
  steering = inr (refl, refl);
  pan = inr (refl, refl);
  tilt = inr (refl, refl);
  gain = inr (refl, refl);
}

car-IsSynced : IsSynced car
car-IsSynced = record { steering = refl; pan = refl; tilt = refl; direction = refl; gain = refl }

set_calibration-IsInRange_example : IsInRange (set_calibration files request car).0.cal
set_calibration-IsInRange_example =
    set_calibration-IsInRange Micro-IsOrdered files request car in_range in_range

set_calibration-IsSynced_example : IsSynced (set_calibration files request car).0
set_calibration-IsSynced_example = set_calibration-IsSynced files request car car-IsSynced

shut_down-EndsNeutral_example :
    EndsNeutral (centred car) (shut_down true (λ _. true) car).driver.hardware
    × ((shut_down true (λ _. true) car).driver.hardware.connected ≡ false)
shut_down-EndsNeutral_example = shut_down-EndsNeutral (λ _. true) car refl refl refl refl

-- ===== src/Driver/Calibration/Bounds.antt =====
-- The calibration stays in its range, whatever the file and the requests hold.
use Prim.Native.String.{String}
use text.Mathlib.Text.{◌==◌ as str_eq}
use physicar_ros.Base.{◌≡◌, inl, inr, true, false, Option, none, some, if-intro, arith, Bool-cases}
use physicar_ros.Double.{Double, Within, IsOrdered, clamp, clamp-Within, le_of_not_lt}
use physicar_ros.Driver.Calibration.{
  CalibrationData, Files, CalibrationRequest, Calibrated, load_json, apply_calibration, load,
  load_and_apply_calibration,
}
use physicar_ros.Driver.Calibration.Kept.{set_calibration_kept}
use physicar_ros.Driver.Calibration.Service.{set_calibration, with_center, is_center, is_no_gain}

module _ {F : Type 0} ⦃d : Double F⦄ where
  open d use {literal, neg, le, lt}

  -- Each value is NaN or in its range.
  pub record IsInRange (c : CalibrationData F) : Type 0 where
    pub steering : Within (neg (literal 30 0)) (literal 30 0) c.steering_center
    pub pan : Within (neg (literal 30 0)) (literal 30 0) c.pan_center
    pub tilt : Within (neg (literal 30 0)) (literal 30 0) c.tilt_center
    pub gain : Within (literal 1 1) (literal 50 1) c.speed_gain

  module _ (laws : IsOrdered F) where
    open laws use {le_trans, neg_mono, literal_mono, neg-literal-le}

    gain_Within : (g : F) → is_no_gain g ≡ false → Within (literal 1 1) (literal 50 1) g
    gain_Within g e = elim (Bool-cases (le g g)) [
      | inr nan ↦ inl nan
      | inl num ↦ inr (
        ground (
          arith,
          le_of_not_lt laws g (literal 1 1) num,
          laws.num_of_le _ _ (literal_mono 1 1 1 (omega arith)),
        ),
        ground (
          arith,
          le_of_not_lt laws (literal 50 1) g,
          laws.num_of_le _ _ (literal_mono 50 50 1 (omega arith)),
          num,
        ),
      )
    ]

    center_Within : (v : F) → is_center v ≡ true → Within (neg (literal 30 0)) (literal 30 0) v
    center_Within v e =
        let l = literal_mono 15 30 0 (omega arith) in
        inr (
          le_trans _ _ _ (neg_mono (literal 15 0) (literal 30 0) l) (ground arith),
          le_trans _ _ _ (ground arith) l,
        )

    load_json-IsInRange : (h : Files F) (text : Option String) → IsInRange (load_json h text)
    unfolding load_json
    load_json-IsInRange h none = record {
      steering = zero;
      pan = zero;
      tilt = zero;
      gain = inr (literal_mono 1 10 1 (omega arith), literal_mono 10 50 1 (omega arith));
    }
      where
        zero : Within (neg (literal 30 0)) (literal 30 0) (literal 0 0)
        zero = inr (neg-literal-le 30 0 0, literal_mono 0 30 0 (omega arith))
    load_json-IsInRange h (some text) = record {
      steering = in_30 _;
      pan = in_30 _;
      tilt = in_30 _;
      gain = clamp-Within laws _ _ _ (literal_mono 1 50 1 (omega arith));
    }
      where
        in_30 :
            (v : F)
            → Within
                (neg (literal 30 0))
                (literal 30 0)
                (clamp v (neg (literal 30 0)) (literal 30 0))
        in_30 v = clamp-Within laws v _ _ (neg-literal-le 30 30 0)

    with_center-IsInRange :
        (name : String) (v : F) (c : CalibrationData F)
        → is_center v ≡ true
        → IsInRange c
        → IsInRange (with_center name v c)
    unfolding with_center
    with_center-IsInRange name v c e p =
        let w = center_Within v e in
        if-intro IsInRange (str_eq name "steering") _ _
          (record { steering = w; pan = p.pan; tilt = p.tilt; gain = p.gain })
          (if-intro IsInRange (str_eq name "pan") _ _
            (record { steering = p.steering; pan = w; tilt = p.tilt; gain = p.gain })
            (record { steering = p.steering; pan = p.pan; tilt = w; gain = p.gain }))

    load-IsInRange :
        (h : Files F) (file : Option (Option String)) (s : Calibrated F)
        → IsInRange s.parameters
        → IsInRange (load h file s)
    load-IsInRange h none s p = p_of p
      where
        p_of : IsInRange s.parameters → IsInRange (load h none s)
        p_of q = record { steering = q.steering; pan = q.pan; tilt = q.tilt; gain = q.gain }
    load-IsInRange h (some text) s p = load_json-IsInRange h text

    -- A request to set the calibration, whatever it asks for and whatever the file holds, leaves every
    -- centre NaN or within 30 degrees, and the speed gain NaN or between 0.1 and 5, if they and the
    -- parameters were before.
    pub set_calibration-IsInRange :
        (h : Files F) (req : CalibrationRequest F) (s : Calibrated F)
        → IsInRange s.parameters
        → IsInRange s.cal
        → IsInRange (set_calibration h req s).0.cal
    unfolding load_and_apply_calibration apply_calibration
    set_calibration-IsInRange h req s q p =
        set_calibration_kept (λ t. IsInRange (Calibrated.cal t)) h req s
          (record {
            as_before = p;
            loaded = load-IsInRange h h.file s q;
            reversed = record { steering = p.steering; pan = p.pan; tilt = p.tilt; gain = p.gain };
            gained = λ e. record {
              steering = p.steering;
              pan = p.pan;
              tilt = p.tilt;
              gain = gain_Within req.max_value e;
            };
            centered = λ name e. with_center-IsInRange name req.center_value s.cal e p;
            saved = λ t b r. record {
              steering = r.steering;
              pan = r.pan;
              tilt = r.tilt;
              gain = r.gain;
            };
          })

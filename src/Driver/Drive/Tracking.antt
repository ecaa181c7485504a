-- ===== src/Driver/Drive/Tracking.antt =====
-- How the driver follows a target speed.
use physicar_ros.Base.{ℕ, ◌≡◌, ◌⊎◌, refl, true, false, arith, Bool-cases, inl, inr}
use physicar_ros.Double.{
  Double, ◌≼◌, IsNum, Within, IsOrdered, clamp, le-max, min-le, le_of_not_lt, clamp-Within,
}
use physicar_ros.Rosmaster.Hardware.{Output}
use physicar_ros.Servo.Limits.{IsSafe, AllSafe, Told, set_throttle_speed-Told}
use physicar_ros.Driver.State.{
  Driver, max_speed, feedback_max_adjust, feedback_timeout, feedback_lookahead, feedback_p_gain,
  speed_deadzone, brake_speed,
}
use physicar_ros.Driver.Drive.{
  fresh_adjust, adjusted_speed, keep_adjust, follow_target, command, brake_or_stop, set_speed,
  brake_step, throttle, stop_throttle, feedback, odom_accel, measure, odom_callback,
}

module _ {ℓ} {F : Type ℓ} ⦃d : Double F⦄ where
  open d use {literal, lt, le, eq, neg}

  pub set_speed_target :
      (now v : F) (s : Driver F)
      → (set_speed now v s).target_speed ≡ clamp v (neg max_speed) max_speed
  unfolding set_speed command brake_or_stop follow_target keep_adjust
  set_speed_target now v s = ground arith

  set_speed_adjust :
      (now v : F) (s : Driver F)
      → ((set_speed now v s).speed_adjust ≡ s.speed_adjust)
        ⊎ ((set_speed now v s).speed_adjust ≡ literal 0 0)
  unfolding set_speed command brake_or_stop follow_target keep_adjust
  set_speed_adjust now v s = ground arith

  odom_callback_target :
      (now actual : F) (s : Driver F) → (odom_callback now actual s).target_speed ≡ s.target_speed
  unfolding odom_callback brake_step feedback follow_target keep_adjust
  odom_callback_target now actual s = ground arith

  feedback_adjust :
      (now actual accel : F) (s : Driver F)
      → ((feedback now actual accel s).speed_adjust ≡ literal 0 0)
        ⊎ ((v : F) × ((feedback now actual accel s).speed_adjust
              ≡ clamp v (neg feedback_max_adjust) feedback_max_adjust))
  unfolding feedback follow_target keep_adjust
  feedback_adjust now actual accel s =
      let v =
        d.mul (d.sub s.target_speed (d.add actual (d.mul accel feedback_lookahead)))
          feedback_p_gain in
      elim (Bool-cases (eq s.target_speed (literal 0 0))) [
        | inl z ↦ rw z (inr (v, refl))
        | inr z ↦ elim (Bool-cases (lt feedback_timeout (d.sub now s.actual_speed_time))) [
          | inl o ↦ rw (z, o) (inl refl)
          | inr o ↦ rw (z, o) (inr (v, refl))
        ]
      ]

  odom_callback_adjust :
      (now actual : F) (s : Driver F)
      → let a = (odom_callback now actual s).speed_adjust in
        (a ≡ s.speed_adjust)
        ⊎ ((a ≡ literal 0 0)
            ⊎ ((v : F) × (a ≡ clamp v (neg feedback_max_adjust) feedback_max_adjust)))
  unfolding odom_callback brake_step
  odom_callback_adjust now actual s = elim (Bool-cases (lt (d.abs s.target_speed) speed_deadzone)) [
    | inl z ↦ rw z (ground arith)
    | inr z ↦
        rw z (inr (feedback_adjust now actual (odom_accel now actual s) (measure now actual s)))
  ]

  -- Whatever holds of all safe commands, and of the commands told before, holds after a speed command
  -- and after a measurement of the speed.
  module _ {κ} (P : Output → Type κ) (holds : (o : Output) → IsSafe o → P o) where
    throttle-Told :
        (speed voltage : F) (s : Driver F)
        → Told P s.hardware
        → Told P (throttle speed voltage s).hardware
    throttle-Told speed voltage s h =
        set_throttle_speed-Told P holds s.servo speed voltage s.hardware h

    follow_target-Told :
        (now : F) (s : Driver F) → Told P s.hardware → Told P (follow_target now s).hardware
    unfolding follow_target keep_adjust
    follow_target-Told now s h =
        ground (arith, throttle-Told (adjusted_speed now s) s.current_voltage s h)

    stop_throttle-Told : (s : Driver F) → Told P s.hardware → Told P (stop_throttle s).hardware
    stop_throttle-Told = throttle-Told (literal 0 0) (literal 74 1)

    brake_or_stop-Told :
        (now : F) (s : Driver F) → Told P s.hardware → Told P (brake_or_stop now s).hardware
    unfolding brake_or_stop
    brake_or_stop-Told now s h = ground (arith, stop_throttle-Told s h)

    brake_step-Told :
        (actual : F) (s : Driver F) → Told P s.hardware → Told P (brake_step actual s).hardware
    unfolding brake_step
    brake_step-Told actual s h = ground (
      arith,
      stop_throttle-Told s h,
      throttle-Told (neg (d.copysign brake_speed actual)) s.current_voltage s h,
    )

    pub set_speed-Told :
        (now v : F) (s : Driver F) → Told P s.hardware → Told P (set_speed now v s).hardware
    unfolding set_speed command
    set_speed-Told now v s h =
        let speed = clamp v (neg max_speed) max_speed in
        elim (Bool-cases (lt (d.abs speed) speed_deadzone)) [
          | inl z ↦ rw z (brake_or_stop-Told now (command now speed s) h)
          | inr z ↦
              rw z
                (follow_target-Told now (record (command now speed s) { brake_active = false }) h)
        ]

    pub odom_callback-Told :
        (now actual : F) (s : Driver F)
        → Told P s.hardware
        → Told P (odom_callback now actual s).hardware
    unfolding odom_callback feedback
    odom_callback-Told now actual s h =
        elim (Bool-cases (lt (d.abs s.target_speed) speed_deadzone)) [
          | inl z ↦ rw z (brake_step-Told actual (measure now actual s) h)
          | inr z ↦ rw z (follow_target-Told now _ h)
        ]

  -- Every speed command, NaN included, tells the hardware safe commands only, if only safe ones were
  -- told before.
  pub set_speed-AllSafe :
      (now v : F) (s : Driver F) → AllSafe s.hardware → AllSafe (set_speed now v s).hardware
  set_speed-AllSafe = set_speed-Told IsSafe (λ o safe. safe)

  -- Every measurement of the speed, NaN included, tells the hardware safe commands only, if only safe
  -- ones were told before.
  pub odom_callback-AllSafe :
      (now actual : F) (s : Driver F)
      → AllSafe s.hardware
      → AllSafe (odom_callback now actual s).hardware
  odom_callback-AllSafe = odom_callback-Told IsSafe (λ o safe. safe)

  module _ (laws : IsOrdered F) where
    open laws use {literal_mono, literal_zero, neg-literal-le, neg_mono, eq_of_le}

    -- What the throttle is told for a target: at least the dead zone above zero, at most its
    -- negation below zero, and zero at zero.
    abbrev pub Follows : F → F → Type ℓ
    Follows target v =
        ((lt (literal 0 0) target ≡ true) × (speed_deadzone ≼ v))
        ⊎ (((lt target (literal 0 0) ≡ true) × (v ≼ neg speed_deadzone))
            ⊎ ((eq target (literal 0 0) ≡ true) × (v ≡ literal 0 0)))

    -- The speed that the throttle is given follows a target that is a number, whatever the feedback
    -- says: it is at least the dead zone speed in the target's direction, and zero for a target of zero.
    pub adjusted_speed-Follows :
        (now : F) (s : Driver F)
        → IsNum s.target_speed
        → Follows s.target_speed (adjusted_speed now s)
    unfolding adjusted_speed
    adjusted_speed-Follows now s n =
        let adj = d.add s.target_speed (fresh_adjust now s) in
        let zero_num = literal_mono 0 0 0 (omega arith) in
        ground (
          arith,
          le-max laws speed_deadzone adj (literal_mono 1 1 2 (omega arith)),
          min-le laws (neg speed_deadzone) adj (neg_mono _ _ (literal_mono 1 1 2 (omega arith))),
          eq_of_le s.target_speed (literal 0 0),
          le_of_not_lt laws s.target_speed (literal 0 0) n zero_num,
          le_of_not_lt laws (literal 0 0) s.target_speed zero_num n,
        )

    -- The limits on the target speed and on the feedback adjustment.
    pub record IsLimited (s : Driver F) : Type ℓ where
      pub target_within : Within (neg max_speed) max_speed s.target_speed
      pub adjust_within : Within (neg feedback_max_adjust) feedback_max_adjust s.speed_adjust

    pub zero-Within : (m e : ℕ) → Within (neg (literal m e)) (literal m e) (literal 0 0)
    zero-Within m e =
        rw (← literal_zero e) (inr (neg-literal-le m 0 e, literal_mono 0 m e (omega arith)))

    symmetric-Within :
        (v : F) (m e : ℕ)
        → Within (neg (literal m e)) (literal m e) (clamp v (neg (literal m e)) (literal m e))
    symmetric-Within v m e =
        clamp-Within laws v (neg (literal m e)) (literal m e) (neg-literal-le m m e)

    Within-of_eq : (lo hi x y : F) → x ≡ y → Within lo hi y → Within lo hi x
    Within-of_eq lo hi x y e w = rw e w

    -- A command puts the target within the limits, and keeps or clears the adjustment.
    pub set_speed-IsLimited :
        (now v : F) (s : Driver F) → IsLimited s → IsLimited (set_speed now v s)
    set_speed-IsLimited now v s l = record {
      target_within = rw (set_speed_target now v s) (symmetric-Within v 300 2);
      adjust_within = elim (set_speed_adjust now v s) [
        | inl e ↦ rw e l.adjust_within
        | inr e ↦ rw e (zero-Within 5 1)
      ];
    }

    -- So does a measurement of the speed, which sets an adjustment within its limits.
    pub odom_callback-IsLimited :
        (now actual : F) (s : Driver F) → IsLimited s → IsLimited (odom_callback now actual s)
    odom_callback-IsLimited now actual s l = record {
      target_within = rw (odom_callback_target now actual s) l.target_within;
      adjust_within = elim (odom_callback_adjust now actual s) [
        | inl e ↦ rw e l.adjust_within
        | inr (inl e) ↦ rw e (zero-Within 5 1)
        | inr (inr (v, e)) ↦ rw e (symmetric-Within v 5 1)
      ];
    }

-- ===== src/JoyTeleop/Tick/Limits.antt =====
-- JoyTeleopNode: what a tick publishes stays within the limits of the mapping.
use Prim.Native.String.{String}
use physicar_ros.Base.{
  ◌≡◌, ◌⊎◌, inl, inr, refl, Bool, false, not, ◌&&◌, ◌||◌, List, [], ◌∷◌, ◌++◌, arith, All,
  All-append, All-if, if-intro,
}
use physicar_ros.Base.Int.{ℤ}
use physicar_ros.Double.{Double, ◌≼◌, Within, IsOrdered, le_of_not_lt}
use physicar_ros.JoyTeleop.State.{
  Teleop, Message, speed, steering, camera_pan, camera_tilt, joy_status, teleop_status, value,
  as_float,
}
use physicar_ros.JoyTeleop.Tick.{
  clip, deg2rad, scaled, engage_drive, engage_camera, aim_camera, drive_messages, camera_messages,
  publish_status, operate, tick, same, release, is_released,
}

module _ {F : Type 0} ⦃d : Double F⦄ where
  open d use {literal, neg, le}

  abbrev pub limit : String → Teleop F → F
  limit k s = as_float (value k s)

  -- The limits of the mapping are not negative.
  pub record HasLimits (s : Teleop F) : Type 0 where
    pub speed_limit : literal 0 0 ≼ limit "max_speed" s
    pub steering_limit : literal 0 0 ≼ limit "max_steering" s
    pub pan_limit : literal 0 0 ≼ limit "max_pan" s
    pub tilt_limit : literal 0 0 ≼ limit "max_tilt" s

  abbrev pub WithinLimit : String → Teleop F → F → Type 0
  WithinLimit k s v = Within (neg (limit k s)) (limit k s) v

  abbrev pub IsAimed : Teleop F → Type 0
  IsAimed s = WithinLimit "max_pan" s s.pan × WithinLimit "max_tilt" s s.tilt

  -- Speeds and, in degrees, steering and camera angles are NaN or within the limits; a steering angle
  -- may also be zero.
  abbrev pub IsLimited : Teleop F → Message F → Type 0
  IsLimited s (speed v) = WithinLimit "max_speed" s v
  IsLimited s (steering v) =
      (v ≡ literal 0 0) ⊎ ((w : F) × (v ≡ deg2rad w) × WithinLimit "max_steering" s w)
  IsLimited s (camera_pan v) = (w : F) × (v ≡ deg2rad w) × WithinLimit "max_pan" s w
  IsLimited s (camera_tilt v) = (w : F) × (v ≡ deg2rad w) × WithinLimit "max_tilt" s w
  IsLimited s (joy_status b) = Unit
  IsLimited s (teleop_status m) = Unit

  module _ (laws : IsOrdered F) where
    open laws use {num_of_le, le_trans, neg_mono, neg-literal-le}

    neg_limit : (x : F) → literal 0 0 ≼ x → neg x ≼ literal 0 0
    neg_limit x h =
        le_trans (neg x) (neg (literal 0 0)) (literal 0 0) (neg_mono (literal 0 0) x h)
          (neg-literal-le 0 0 0)

    clip-Within : (v lim : F) → literal 0 0 ≼ lim → Within (neg lim) lim (clip v lim)
    unfolding clip
    clip-Within v lim h =
        let (_, n) = num_of_le (literal 0 0) lim h in
        let m = neg_limit lim h in
        let nn = num_of_le (neg lim) (literal 0 0) m in
        ground (
          arith,
          n,
          m,
          h,
          nn.0,
          le_trans (neg lim) (literal 0 0) lim m h,
          le_of_not_lt laws lim v n,
          le_of_not_lt laws v (neg lim),
        )

    zero_Within : (lim : F) → literal 0 0 ≼ lim → Within (neg lim) lim (literal 0 0)
    zero_Within lim h = inr (neg_limit lim h, h)

    scaled-Within :
        (a i m : String) (s : Teleop F) → literal 0 0 ≼ limit m s → WithinLimit m s (scaled a i m s)
    unfolding scaled
    scaled-Within a i m s h = clip-Within _ _ h

    drive_messages-IsLimited :
        (prev : Bool) (s : Teleop F) → HasLimits s → All (IsLimited s) (drive_messages prev s)
    unfolding drive_messages
    drive_messages-IsLimited prev s h =
        let zero-Within = zero_Within _ h.speed_limit in
        All-if (IsLimited s) (s.drive_engaged && not s.estop_latched) _ _
          (
            scaled-Within _ _ _ s h.speed_limit,
            (inr (_, refl, scaled-Within _ _ _ s h.steering_limit), tt),
          )
          (All-if (IsLimited s) (prev && not s.drive_engaged) _ _ (zero-Within, (inl refl, tt))
            (All-if (IsLimited s) (s.estop_latched && s.drive_engaged) _ _ (zero-Within, tt) tt))

    publish_status-IsLimited :
        (b : Bool) (s t : Teleop F) → All (IsLimited s) (publish_status b t).1
    unfolding publish_status
    publish_status-IsLimited b s t =
        All-append (IsLimited s) _ (teleop_status _ ∷ [])
          (All-if (IsLimited s) (b || not (same t.enabled t.published_enabled))
            (joy_status t.enabled ∷ []) [] (tt, tt) tt)
          (tt, tt)

    aim_camera-IsAimed : (s : Teleop F) → HasLimits s → IsAimed s → IsAimed (aim_camera s)
    unfolding aim_camera value
    aim_camera-IsAimed s h (p, q) = (
      if-intro (WithinLimit "max_pan" s) s.camera_engaged _ _ (scaled-Within _ _ _ s h.pan_limit) p,
      if-intro (WithinLimit "max_tilt" s) s.camera_engaged _ _ (scaled-Within _ _ _ s h.tilt_limit)
          q,
    )

    camera_messages-IsLimited :
        (prev : Bool) (s : Teleop F) → IsAimed s → All (IsLimited s) (camera_messages prev s)
    unfolding camera_messages
    camera_messages-IsLimited prev s (p, q) =
        All-if (IsLimited s) (s.camera_engaged || prev) _ [] ((_, refl, p), ((_, refl, q), tt)) tt

    engaged-HasLimits :
        (now : ℤ) (s : Teleop F) → HasLimits s → HasLimits (engage_camera now (engage_drive now s))
    unfolding engage_drive engage_camera value
    engaged-HasLimits now s h = record {
      speed_limit = h.speed_limit;
      steering_limit = h.steering_limit;
      pan_limit = h.pan_limit;
      tilt_limit = h.tilt_limit;
    }

    publish_status-IsAimed : (b : Bool) (s : Teleop F) → IsAimed s → IsAimed (publish_status b s).0
    unfolding publish_status value
    publish_status-IsAimed b s a = a

    operate-IsLimited :
        (now : ℤ) (s : Teleop F)
        → HasLimits s
        → IsAimed s
        → All (IsLimited s) (operate now s).1 × IsAimed (operate now s).0
    unfolding operate engage_drive engage_camera aim_camera value
    operate-IsLimited now s h a =
        let engaged = engage_camera now (engage_drive now s) in
        let aimed = aim_camera-IsAimed engaged (engaged-HasLimits now s h) a in
        let drive = drive_messages s.drive_engaged engaged in
        let camera = camera_messages s.camera_engaged (aim_camera engaged) in
        (
          All-append (IsLimited s) (drive ++ camera) _
              (All-append (IsLimited s) drive camera
                (drive_messages-IsLimited s.drive_engaged engaged (engaged-HasLimits now s h))
                (camera_messages-IsLimited s.camera_engaged (aim_camera engaged) aimed))
              (publish_status-IsLimited false s (aim_camera engaged)),
          publish_status-IsAimed false (aim_camera engaged) aimed,
        )

    -- A tick that finds limits of the mapping that are not negative and the camera's angles NaN
    -- or within them publishes speeds and angles that are NaN or within these limits, and leaves
    -- the camera's angles so.
    pub tick-IsLimited :
        (now : ℤ) (s : Teleop F)
        → HasLimits s
        → IsAimed s
        → All (IsLimited s) (tick now s).1 × IsAimed (tick now s).0
    unfolding tick value
    tick-IsLimited now s h a =
        if-intro {A = Teleop F × List (Message F)} (λ p. All (IsLimited s) p.1 × IsAimed p.0)
          (is_released now s) _ _
          (publish_status-IsLimited false s (release s), publish_status-IsAimed false (release s) a)
          (operate-IsLimited now s h a)

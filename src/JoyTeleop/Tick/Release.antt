-- ===== src/JoyTeleop/Tick/Release.antt =====
-- JoyTeleopNode: the emergency stop, and what a tick does when the joystick lets go of the drive.
use physicar_ros.Base.{
  ◌≡◌, inl, inr, refl, ap, ◌∙◌, Bool, true, false, not, ◌&&◌, ◌||◌, List, [], ◌∷◌, ◌++◌,
  if◌then◌else◌, arith, Bool-cases, if-intro,
}
use physicar_ros.Base.Int.{ℤ}
use physicar_ros.Double.{Double}
use physicar_ros.JoyTeleop.State.{Teleop, Message, speed, steering, joy_status}
use physicar_ros.JoyTeleop.Tick.{
  engage_drive, engage_camera, aim_camera, drive_messages, camera_messages, publish_status, same,
  operate, tick, release, is_released,
}

module _ {F : Type 0} ⦃d : Double F⦄ where
  open d use {literal}

  abbrev pub is_drive : Message F → Bool
  is_drive (speed v) = true
  is_drive (steering v) = true
  is_drive m = false

  -- The messages to the drive.
  abbrev pub drive_part : List (Message F) → List (Message F)
  drive_part [] = []
  drive_part (m ∷ ms) = if is_drive m then m ∷ drive_part ms else drive_part ms

  abbrev zeros : List (Message F)
  zeros = speed (literal 0 0) ∷ steering (literal 0 0) ∷ []

  drive_part-append :
      (ms ns : List (Message F)) → drive_part (ms ++ ns) ≡ drive_part ms ++ drive_part ns
  drive_part-append [] ns = refl
  drive_part-append (m ∷ ms) ns = ground (arith, drive_part-append ms ns)

  drive_part-if :
      (b : Bool) (ms : List (Message F))
      → drive_part ms ≡ []
      → drive_part (if b then ms else []) ≡ []
  drive_part-if true ms h = h
  drive_part-if false ms h = refl

  drive_part-camera : (b : Bool) (s : Teleop F) → drive_part (camera_messages b s) ≡ []
  unfolding camera_messages
  drive_part-camera b s = drive_part-if (s.camera_engaged || b) _ refl

  drive_part-status : (b : Bool) (s : Teleop F) → drive_part (publish_status b s).1 ≡ []
  unfolding publish_status
  drive_part-status b s =
      let changed = b || not (same s.enabled s.published_enabled) in
      drive_part-append (if changed then joy_status s.enabled ∷ [] else []) _
      ∙ rw (drive_part-if changed (joy_status s.enabled ∷ []) refl) refl

  abbrev Same : List (Message F) → Type 0
  Same ms = drive_part ms ≡ ms

  drive_part-drive :
      (b : Bool) (s : Teleop F) → drive_part (drive_messages b s) ≡ drive_messages b s
  unfolding drive_messages
  drive_part-drive b s = if-intro Same (s.drive_engaged && not s.estop_latched) _ _ refl (
      if-intro Same (b && not s.drive_engaged) _ _ refl
        (if-intro Same (s.estop_latched && s.drive_engaged) _ _ refl refl))

  append_empty : (ms : List (Message F)) → ms ++ [] ≡ ms
  append_empty [] = refl
  append_empty (m ∷ ms) = ap (λ ns. m ∷ ns) (append_empty ms)

  drive_part-operate :
      (now : ℤ) (s : Teleop F)
      → drive_part (operate now s).1
        ≡ drive_messages s.drive_engaged (engage_camera now (engage_drive now s))
  unfolding operate
  drive_part-operate now s =
      rw
        (
          drive_part-append, drive_part-append, drive_part-status, drive_part-camera, append_empty,
          append_empty, drive_part-drive,
        )
        refl

  drive_part-tick :
      (now : ℤ) (s : Teleop F)
      → drive_part (tick now s).1 ≡ (
          if is_released now s
          then []
          else drive_messages s.drive_engaged (engage_camera now (engage_drive now s)))
  unfolding tick
  drive_part-tick now s = elim (Bool-cases (is_released now s)) [
    | inl e ↦ rw e (drive_part-status false (release s))
    | inr e ↦ rw e (drive_part-operate now s)
  ]

  tick_engaged :
      (now : ℤ) (s : Teleop F)
      → (tick now s).0.drive_engaged ≡ (
          if is_released now s
          then false
          else (engage_camera now (engage_drive now s)).drive_engaged)
  unfolding tick publish_status operate aim_camera
  tick_engaged now s = elim (Bool-cases (is_released now s)) [
    | inl e ↦ rw e refl
    | inr e ↦ rw e refl
  ]

  drive_messages_off :
      (b : Bool) (s : Teleop F)
      → s.drive_engaged ≡ false
      → drive_messages b s ≡ (if b then zeros else [])
  unfolding drive_messages
  drive_messages_off b s h = ground arith

  drive_messages_estop :
      (b : Bool) (s : Teleop F)
      → s.estop_latched ≡ true
      → s.drive_engaged ≡ true
      → drive_messages b s ≡ speed (literal 0 0) ∷ []
  unfolding drive_messages
  drive_messages_estop b s h e = ground arith

  engaged_estop :
      (now : ℤ) (s : Teleop F)
      → (engage_camera now (engage_drive now s)).estop_latched ≡ s.estop_latched
  unfolding engage_camera engage_drive
  engaged_estop now s = refl

  -- When a tick ends with the drive not engaged, it publishes one zero speed and one zero steering
  -- angle if the drive was engaged before and the joystick is enabled and fresh, and nothing to the
  -- drive if not.
  pub tick_release :
      (now : ℤ) (s : Teleop F)
      → (tick now s).0.drive_engaged ≡ false
      → drive_part (tick now s).1 ≡ (
          if s.drive_engaged && not (is_released now s)
          then speed (literal 0 0) ∷ steering (literal 0 0) ∷ []
          else [])
  tick_release now s h = ground (
    arith,
    drive_part-tick now s,
    tick_engaged now s,
    drive_messages_off s.drive_engaged (engage_camera now (engage_drive now s)),
  )

  -- While the emergency stop is held, a tick publishes no speed and no steering angle other than
  -- zero: a zero speed while the drive is engaged, and both when it is let go.
  pub tick_estop :
      (now : ℤ) (s : Teleop F)
      → s.estop_latched ≡ true
      → drive_part (tick now s).1 ≡ (
          if (tick now s).0.drive_engaged
          then speed (literal 0 0) ∷ []
          else (if s.drive_engaged && not (is_released now s)
              then speed (literal 0 0) ∷ steering (literal 0 0) ∷ []
              else []))
  tick_estop now s h = ground (
    arith,
    drive_part-tick now s,
    tick_engaged now s,
    drive_messages_off s.drive_engaged (engage_camera now (engage_drive now s)),
    drive_messages_estop s.drive_engaged (engage_camera now (engage_drive now s))
        (engaged_estop now s ∙ h),
  )

-- ===== src/Driver/Node/Ownership.antt =====
-- Who moves the car: while a teleop source owns the drive, the other sources have no effect.
use Prim.Native.String.{String}
use mathlib.Core.List.{Memᴰ}
use physicar_ros.Base.{
  ◌≡◌, refl, Bool, true, ◌&&◌, ◌||◌, List, [], ◌∷◌, arith, Bool-cases, inl, inr,
}
use physicar_ros.Base.Int.{ℤ}
use physicar_ros.Double.{Double}
use physicar_ros.Driver.State.{Driver, TeleopSource}
use physicar_ros.Driver.Arbitration.{
  TeleopStatus, any, any_except, any-insert, insert-Distinct, Distinct, is_fresh, drive_engaged,
  camera_engaged, source_timeout, source_name, teleop_status_callback,
}
use physicar_ros.Driver.Drive.{cmd_vel_callback}
use physicar_ros.Driver.Node.{
  Times, Event, speed, steering, cmd_vel, pan, tilt, teleop_status, step,
}

module _ {ℓ} {F : Type ℓ} ⦃d : Double F⦄ where
  -- The commands of programs, by what they move.
  pub data ProgramDrive : Event F → Type ℓ where
    of_speed : (v : F) → ProgramDrive (speed v)
    of_steering : (v : F) → ProgramDrive (steering v)
    of_cmd_vel : (vx wz : F) → ProgramDrive (cmd_vel vx wz)

  pub data ProgramCamera : Event F → Type ℓ where
    of_pan : (v : F) → ProgramCamera (pan v)
    of_tilt : (v : F) → ProgramCamera (tilt v)

  -- While a teleop source owns the drive, /speed, /steering and /cmd_vel change nothing at all.
  pub engaged_drive_ignores :
      (t : Times F) (e : Event F) (s : Driver F)
      → ProgramDrive e
      → drive_engaged t.ns s ≡ true
      → step t e s ≡ s
  unfolding step cmd_vel_callback
  engaged_drive_ignores t e s (of_speed v) h = rw h
  engaged_drive_ignores t e s (of_steering v) h = rw h
  engaged_drive_ignores t e s (of_cmd_vel vx wz) h = rw h

  -- While a teleop source owns the camera, /camera/pan and /camera/tilt change nothing at all.
  pub engaged_camera_ignores :
      (t : Times F) (e : Event F) (s : Driver F)
      → ProgramCamera e
      → camera_engaged t.ns s ≡ true
      → step t e s ≡ s
  unfolding step
  engaged_camera_ignores t e s (of_pan v) h = rw h
  engaged_camera_ignores t e s (of_tilt v) h = rw h

  -- A source that reports with a given age is fresh if its age is within its timeout.
  abbrev pub reported : ℤ → TeleopStatus → TeleopSource F
  reported now msg = record {
    drive = msg.drive_engaged;
    camera = msg.camera_engaged;
    estop = msg.estop_latched;
    timeout_sec = source_timeout msg;
    last_ns = now;
  }

  -- If the sources are distinct, then after a status message the drive is owned exactly if that
  -- message claims it and is still fresh, or if another source claims it and is still fresh; an
  -- earlier message of the same source no longer counts. The sources stay distinct.
  pub drive_engaged-teleop_status :
      (t : Times F) (later : ℤ) (msg : TeleopStatus) (s : Driver F)
      → Distinct s.teleop_sources
      → let new = step t (teleop_status msg) s in
        (drive_engaged later new ≡ (
          (is_fresh later (reported t.ns msg) && msg.drive_engaged)
          || any_except (source_name msg) (λ u. is_fresh later u && u.drive) s.teleop_sources))
        × Distinct new.teleop_sources
  unfolding step teleop_status_callback drive_engaged
  drive_engaged-teleop_status t later msg s h = (
    any-insert (λ u. is_fresh later u && u.drive) (source_name msg) (reported t.ns msg)
        s.teleop_sources h,
    insert-Distinct (source_name msg) (reported t.ns msg) s.teleop_sources h,
  )

  any_mem :
      (test : TeleopSource F → Bool) (m : List (String × TeleopSource F))
      → any test m ≡ true
      → (k : String) × (u : TeleopSource F) × Memᴰ (k, u) m × (test u ≡ true)
  unfolding any
  any_mem test [] h = absurd (cc)
  any_mem test ((k, u) ∷ m) h = elim (Bool-cases (test u)) [
    | inl e ↦ (k, u, Memᴰ.head refl, e)
    | inr e ↦ let (k', u', mem, e') = any_mem test m (rw e at h) in (k', u', Memᴰ.tail mem, e')
  ]

  -- Whenever the drive is owned there is a source that claims it and reported within its timeout: a
  -- source that has gone silent does not hold the drive.
  pub drive_engaged_source :
      (now : ℤ) (s : Driver F)
      → drive_engaged now s ≡ true
      → (k : String) × (u : TeleopSource F) × Memᴰ (k, u) s.teleop_sources
        × (is_fresh now u ≡ true)
        × (u.drive ≡ true)
  unfolding drive_engaged
  drive_engaged_source now s h =
      let (k, u, mem, e) = any_mem (λ v. is_fresh now v && v.drive) s.teleop_sources h in
      (k, u, mem, ground arith, ground arith)

-- ===== src/LidarNode/Motor/Sent.antt =====
-- The node's `is_scanning` against what it has told the lidar.
use physicar_ros.Base.{
  ℕ, Bool, true, false, ◌≡◌, refl, List, [], ◌∷◌, none, arith, if-intro, inl, inr, ◌⊎◌, ltb, ◌==◌,
  ◌∙◌, sym, not, ◌&&◌, ◌||◌,
}
use physicar_ros.Double.{Double}
use physicar_ros.LidarNode.Motor.{
  Command, set_motor_speed, stop_scan, start_scan, start_scan_express, Answers, Lidar, send, stop,
  request_scan, set_scan_mode, start, settle, stop_motor, start_motor, standby,
}

-- Whether the lidar measures, after these commands.
unfoldable pub is_measuring : List Command → Bool
is_measuring [] = false
is_measuring (set_motor_speed s ∷ rest) = is_measuring rest
is_measuring (stop_scan ∷ rest) = false
is_measuring (start_scan ∷ rest) = true
is_measuring (start_scan_express k ∷ rest) = true

-- Whether its motor turns.
unfoldable pub is_spinning : List Command → Bool
is_spinning [] = false
is_spinning (set_motor_speed s ∷ rest) = ltb 0 s
is_spinning (stop_scan ∷ rest) = is_spinning rest
is_spinning (start_scan ∷ rest) = is_spinning rest
is_spinning (start_scan_express k ∷ rest) = is_spinning rest

module _ {G : Type 0} where
  -- The node knows whether the lidar measures.
  pub record Agrees (l : Lidar G) : Type 0 where
    pub driver : l.has_driver ≡ true
    pub scanning : l.is_scanning ≡ is_measuring l.commands

  -- The lidar neither measures nor turns.
  pub record IsOff (l : Lidar G) : Type 0 where
    pub no_measuring : is_measuring l.commands ≡ false
    pub no_spinning : is_spinning l.commands ≡ false

  pub stop-IsOff : (l : Lidar G) → l.has_driver ≡ true → IsOff (stop l)
  unfolding stop send is_measuring is_spinning
  stop-IsOff l h = record { no_measuring = ground arith; no_spinning = ground arith }

  pub stop-Agrees : (l : Lidar G) → l.has_driver ≡ true → Agrees (stop l)
  unfolding stop send is_measuring
  stop-Agrees l h = record { driver = ground arith; scanning = ground arith }

  pub stop-scanning : (l : Lidar G) → l.has_driver ≡ true → (stop l).is_scanning ≡ false
  unfolding stop
  stop-scanning l h = ground arith

  pub request_scan-driver :
      (a : Answers G) (l : Lidar G) → ((request_scan a l).1).has_driver ≡ l.has_driver
  unfolding request_scan send
  request_scan-driver a l = ground arith

  -- A scan that is granted was started.
  pub request_scan-measures :
      (a : Answers G) (l : Lidar G)
      → ((request_scan a l).0 ≡ none) ⊎ (is_measuring (((request_scan a l).1).commands) ≡ true)
  unfolding request_scan send is_measuring
  request_scan-measures a l = ground arith

  -- A start succeeds, and the lidar measures, or it fails, and the lidar is off.
  pub record Started (r : Bool × Lidar G) : Type 0 where
    pub agrees : Agrees (r.1)
    pub answer : r.0 ≡ (r.1).is_scanning
    pub outcome : (r.0 ≡ true) ⊎ IsOff (r.1)

  settle-Started :
      (r : Bool × Lidar G)
      → (r.1).has_driver ≡ true
      → (r.0 ≡ false) ⊎ (is_measuring ((r.1).commands) ≡ true)
      → Started (settle r)
  settle-Started (true, l) h (inl e) = absurd (cc)
  settle-Started (true, l) h (inr e) = record {
    agrees = record { driver = h; scanning = sym e };
    answer = refl;
    outcome = inl refl;
  }
  settle-Started (false, l) h m = record {
    agrees = stop-Agrees l h;
    answer = sym (stop-scanning l h);
    outcome = inr (stop-IsOff l h);
  }

module _ (F : Type 0) {G : Type 0} ⦃d : Double F⦄ ⦃g : Double G⦄ where
  set_scan_mode-driver :
      (a : Answers G) (l : Lidar G) → ((set_scan_mode F a l).1).has_driver ≡ l.has_driver
  unfolding set_scan_mode
  set_scan_mode-driver a l = ground (arith, request_scan-driver a l)

  set_scan_mode-measures :
      (a : Answers G) (l : Lidar G)
      → ((set_scan_mode F a l).0 ≡ false) ⊎ (is_measuring ((set_scan_mode F a l).1).commands ≡ true)
  unfolding set_scan_mode
  set_scan_mode-measures a l = ground (arith, request_scan-measures a l)

  start_eq :
      (a : Answers G) (l : Lidar G)
      → l.has_driver ≡ true
      → start F a l ≡ settle (set_scan_mode F a (send (set_motor_speed 65535) l))
  unfolding start
  start_eq a l h = rw (h)

  pub start-Started : (a : Answers G) (l : Lidar G) → l.has_driver ≡ true → Started (start F a l)
  unfolding send
  start-Started a l h =
      let sent = send (set_motor_speed 65535) l in
      rw (start_eq a l h) (
        settle-Started (set_scan_mode F a sent) (set_scan_mode-driver a sent ∙ h)
          (set_scan_mode-measures a sent))

  pub standby-Agrees :
      (count count_again : ℕ) (a : Answers G) (l : Lidar G)
      → Agrees l
      → Agrees (standby F count count_again a l)
  unfolding standby
  standby-Agrees count count_again a l h =
      let started = (start-Started a l h.driver).agrees in
      let stopped = stop-Agrees l h.driver in
      if-intro Agrees l.auto_standby _ _
        (if-intro Agrees (ltb 0 count && not l.is_scanning) _ _ started
          (if-intro Agrees (count_again == 0 && l.is_scanning) _ _ stopped h))
        h

  -- In automatic standby, where `is_scanning` says whether the lidar was told to measure and both
  -- reads of the count agree, it measures afterwards exactly if there is a subscriber and it was
  -- measuring before or could be started.
  pub standby-Follows :
      (count : ℕ) (a : Answers G) (l : Lidar G)
      → l.auto_standby ≡ true
      → Agrees l
      → is_measuring ((standby F count count a l).commands)
        ≡ ltb 0 count && (l.is_scanning || (start F a l).0)
  unfolding standby
  standby-Follows count a l h agrees =
      let answer = (start-Started a l agrees.driver).answer in
      let stopped = stop-scanning l agrees.driver in
      sym ((standby-Agrees count count a l agrees).scanning) ∙ ground arith

  pub start_motor-Agrees : (a : Answers G) (l : Lidar G) → Agrees l → Agrees ((start_motor F a l).1)
  unfolding start_motor
  start_motor-Agrees a l h =
      if-intro {A = Bool × Lidar G} (λ r. Agrees (r.1)) l.auto_standby _ _ h
        ((start-Started a l h.driver).agrees)

  pub stop_motor-Agrees : (l : Lidar G) → Agrees l → Agrees ((stop_motor l).1)
  unfolding stop_motor
  stop_motor-Agrees l h =
      if-intro {A = Bool × Lidar G} (λ r. Agrees (r.1)) l.auto_standby _ _ h
        (stop-Agrees l h.driver)

-- ===== src/LidarNode/Loop/Off.antt =====
-- What `work_loop` of physicar_lidar/src/rplidar_node.cpp leaves the lidar with.
use physicar_ros.Base.{
  Bool, true, false, ◌≡◌, refl, ◌∙◌, none, some, List, [], ◌∷◌, ◌⊎◌, inl, inr, arith, if-intro,
  if-case, ◌&&◌,
}
use physicar_ros.Base.Int.{ℤ}
use physicar_ros.Double.{Double, Casts}
use physicar_ros.LidarNode.{Measurement}
use physicar_ros.LidarNode.Motor.{Answers, Lidar, send, start_motor, stop_motor}
use physicar_ros.LidarNode.Motor.Sent.{
  is_measuring, is_spinning, Agrees, IsOff, start-Started, standby-Agrees, start_motor-Agrees,
  stop_motor-Agrees,
}
use physicar_ros.LidarNode.Loop.{
  Options, Ascended, ascended, all_invalid, refused, Request, start_request, stop_request, Round,
  Loop, Connection, publish, publish_full, publish_valid, on_ascended, serve, spin_some, tune,
  round, rounds, after_start, turn_slowly, run, finish, delete_driver, work_loop,
}

module _ {G : Type 0} where
  -- The lidar is off and the driver deleted.
  pub record IsLeft (l : Lidar G) : Type 0 where
    pub off : IsOff l
    pub no_driver : l.has_driver ≡ false

  idle-IsOff : (l : Lidar G) → l.commands ≡ [] → IsOff l
  unfolding is_measuring is_spinning
  idle-IsOff l h = record { no_measuring = rw h refl; no_spinning = rw h refl }

  finish-IsLeft : (s : Loop G) → IsLeft ((finish s).lidar)
  unfolding finish delete_driver send is_measuring is_spinning
  finish-IsLeft s = record {
    off = record { no_measuring = refl; no_spinning = refl };
    no_driver = refl;
  }

  delete_driver-IsLeft : (l : Lidar G) → IsOff l → IsLeft (delete_driver l)
  unfolding delete_driver
  delete_driver-IsLeft l h = record {
    off = record { no_measuring = h.no_measuring; no_spinning = h.no_spinning };
    no_driver = refl;
  }

  turn_slowly-driver : (s : Loop G) → (turn_slowly s).has_driver ≡ (s.lidar).has_driver
  unfolding turn_slowly send
  turn_slowly-driver s =
      if-intro {A = Lidar G} (λ l. l.has_driver ≡ (s.lidar).has_driver) s.tuning _ _ refl refl

module _ {G : Type 0} ⦃g : Double G⦄ where
  tune-Agrees : (s : Loop G) → Agrees s.lidar → Agrees ((tune s).lidar)
  unfolding tune send is_measuring
  tune-Agrees s h = record { driver = h.driver; scanning = h.scanning }

module _ (F : Type 0) {G : Type 0} ⦃d : Double F⦄ ⦃g : Double G⦄ where
  serve-Agrees : (rs : List (Request G)) (l : Lidar G) → Agrees l → Agrees (serve F rs l)
  unfolding serve
  serve-Agrees [] l h = h
  serve-Agrees (start_request a ∷ rs) l h =
      serve-Agrees rs ((start_motor F a l).1) (start_motor-Agrees F a l h)
  serve-Agrees (stop_request ∷ rs) l h =
      serve-Agrees rs ((stop_motor l).1) (stop_motor-Agrees F l h)

module _ {F G : Type 0} ⦃d : Double F⦄ ⦃g : Double G⦄ ⦃cast : Casts F G⦄ (infinity : G) where
  publish_valid-lidar :
      (o : Options) (t : F) (nodes : List Measurement) (s : Loop G)
      → (publish_valid infinity o t nodes s).lidar ≡ s.lidar
  unfolding publish_valid publish
  publish_valid-lidar o t nodes s = ground arith

  -- A scan that is published leaves the lidar as it is.
  on_ascended-lidar :
      (o : Options) (t : F) (a : Ascended) (s : Loop G)
      → (on_ascended infinity o t a s).lidar ≡ s.lidar
  unfolding on_ascended publish_full publish
  on_ascended-lidar o t (ascended nodes) s =
      if-intro {A = Loop G} (λ u. u.lidar ≡ s.lidar) o.angle_compensate _ _ refl
        (publish_valid-lidar o t nodes s)
  on_ascended-lidar o t (all_invalid nodes) s = refl
  on_ascended-lidar o t refused s = refl

  round-Agrees :
      (o : Options) (r : Round F G) (s : Loop G)
      → Agrees s.lidar
      → Agrees ((round infinity o r s).lidar)
  unfolding round spin_some
  round-Agrees o r s h =
      let ready = standby-Agrees F r.count r.count_again r.answers s.lidar h in
      elim r.grabbed as (λ x. Agrees ((round infinity o (record r { grabbed = x }) s).lidar)) [
        | none ↦ serve-Agrees F r.requests _ ready
        | some result ↦
            if-intro {A = Loop G} (λ u. Agrees u.lidar) s.tuning _ _ (tune-Agrees _ ready)
              (serve-Agrees F r.requests _
                (rw (on_ascended-lidar o r.scan_duration result _) ready))
      ]

  -- From a state with a driver in which `is_scanning` says whether the lidar was told to measure,
  -- every sequence of rounds, with their standby, scans, tuning and services, keeps both.
  pub rounds-Agrees :
      (o : Options) (rs : List (Round F G)) (s : Loop G)
      → Agrees s.lidar
      → Agrees ((rounds infinity o rs s).lidar)
  unfolding rounds
  rounds-Agrees o [] s h = h
  rounds-Agrees o (r ∷ rs) s h = rounds-Agrees o rs (round infinity o r s) (round-Agrees o r s h)

  after_start-IsLeft :
      (o : Options) (rs : List (Round F G)) (s : Loop G) (r : Bool × Lidar G)
      → (r.0 ≡ true) ⊎ IsOff (r.1)
      → IsLeft (((after_start infinity o rs s r).1).lidar)
  unfolding after_start
  after_start-IsLeft o rs s (true, l) h =
      finish-IsLeft (rounds infinity o rs (record s { lidar = l }))
  after_start-IsLeft o rs s (false, l) (inl e) = absurd (cc)
  after_start-IsLeft o rs s (false, l) (inr off) = delete_driver-IsLeft l off

  run-IsLeft :
      (o : Options) (a : Answers G) (rs : List (Round F G)) (s : Loop G)
      → (s.lidar).has_driver ≡ true
      → IsLeft (((run infinity o a rs s).1).lidar)
  unfolding run
  run-IsLeft o a rs s h =
      let l = turn_slowly s in
      after_start-IsLeft o rs s _ (
        if-intro {A = Bool × Lidar G} (λ r. (r.0 ≡ true) ⊎ IsOff (r.1)) l.auto_standby _ _
          (inl refl) ((start-Started F a l (turn_slowly-driver s ∙ h)).outcome))

  -- If no command was sent before it, then whatever the driver answers, the subscribers do and the
  -- services are asked for, and on every return, the work loop leaves a lidar that was told last not
  -- to measure and not to turn, or was never told to, and no driver.
  pub work_loop-IsLeft :
      (c : Connection) (o : Options) (a : Answers G) (rs : List (Round F G)) (l : Lidar G)
      → l.commands ≡ []
      → IsLeft (((work_loop infinity c o a rs l).1).lidar)
  unfolding work_loop delete_driver is_measuring is_spinning
  work_loop-IsLeft c o a rs l h =
      let idle = idle-IsOff l h in
      if-case {A = ℤ × Loop G} (λ r. IsLeft ((r.1).lidar)) c.creates _ _
        (λ e.
          if-intro {A = ℤ × Loop G} (λ r. IsLeft ((r.1).lidar))
            (c.connects && (c.has_info && c.is_healthy)) _ _ (run-IsLeft o a rs _ e)
            (record {
              off = record { no_measuring = idle.no_measuring; no_spinning = idle.no_spinning };
              no_driver = refl;
            }))
        (λ e. record {
          off = record { no_measuring = idle.no_measuring; no_spinning = idle.no_spinning };
          no_driver = e;
        })

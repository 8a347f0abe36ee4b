-- ===== src/Tracky/Driving/Legs.antt =====
-- The way that a drive of tracky/src/trackeroo/driving.go takes: the stops and the legs that its route
-- asks for, in their order.
use trackeroo.Base.{
  ◌≡◌, refl, ap, sym, ◌∙◌, ℕ, zero, suc, ◌+◌, ◌≤◌, Bool, true, false, ◌&&◌, List, [], ◌∷◌, ◌++◌,
  append-nil, append_assoc, map, All, if◌then◌else◌, arith, ℤ, pos, negsuc,
}
use trackeroo.Backend.Model.{Time}
use trackeroo.Tracky.Driving.{
  Floats, Coordinate, RouteSegment, Status, stopped, DrivePosition, whole, haversine_distance,
  interpolate_position,
}
use trackeroo.Tracky.Driving.Simulation.{
  DrivingSimulator, Drive, Pace, standing, stop_at, pace_of, send_steps, steps_of, base_speed,
  current_speed, steps_between, at_speed, drive_at, drive_pair, drive_pairs, drive_segments,
}

module _ (R : Floats) where
  abbrev Position : Type 0
  Position = DrivePosition R.Float

  abbrev Place : Type 0
  Place = Coordinate R.Float

  -- the point after k of n equal parts of the straight line between two coordinates
  abbrev pub between : Place → Place → ℕ → ℕ → Place
  between from to k n = record {
    lat = R.add from.lat (R.mul (R.sub to.lat from.lat) (R.div (whole R k) (whole R n)));
    lng = R.add from.lng (R.mul (R.sub to.lng from.lng) (R.div (whole R k) (whole R n)));
  }

  -- as many of these points as `left` says, from k parts on
  abbrev pub points : Place → Place → ℕ → ℕ → ℕ → List Place
  points from to zero k n = []
  points from to (suc left) k n = between from to k n ∷ points from to left (k + 1) n

  -- the same speed, status and distance in all positions of a leg
  abbrev pub Steady : R.Float → Status → R.Float → List Position → Type 0
  Steady speed status distance =
      All (λ p. (p.speed ≡ speed) × (p.status ≡ status) × (p.distance ≡ distance))

  -- The positions between two neighbouring coordinates: both ends and the points between them, in
  -- equal parts, with one speed and status and with the distance of the two.
  pub record Leg (from to : Place) (ps : List Position) : Type 0 where
    pub steps : ℕ
    pub some_steps : 1 ≤ steps
    pub line : map (λ p. DrivePosition.coordinate p) ps ≡ points from to (steps + 1) 0 steps
    pub speed : R.Float
    pub status : Status
    pub steady : Steady speed status (haversine_distance R from to) ps

  -- One position that stands still, where the vehicle is to stop, and else none.
  abbrev pub Halt : Bool → Place → List Position → Type 0
  Halt false at ps = ps ≡ []
  Halt true at ps =
      (p : Position) × (ps ≡ p ∷ [])
      × (p.status ≡ stopped)
      × (p.coordinate ≡ at)
      × (p.speed ≡ whole R 0)

  abbrev pub PairsWay : Bool → List Place → List Position → Type 0
  PairsWay halts [] ps = ps ≡ []
  PairsWay halts (c ∷ []) ps = ps ≡ []
  PairsWay halts (c ∷ e ∷ cs) ps =
      (halt leg later : List Position) × (ps ≡ halt ++ (leg ++ later))
      × Halt halts c halt
      × Leg c e leg
      × PairsWay false (e ∷ cs) later

  -- For each segment its stop, if it has one, and a leg for each pair of neighbouring coordinates.
  abbrev pub RouteWay : List (RouteSegment R.Float) → List Position → Type 0
  RouteWay [] ps = ps ≡ []
  RouteWay (segment ∷ rest) ps =
      (here later : List Position) × (ps ≡ here ++ later)
      × PairsWay segment.should_stop segment.coordinates here
      × RouteWay rest later

module _ (R : Floats) (random : ℕ → R.Float) (clock : ℕ → Time) (ds : DrivingSimulator R.Float)
    (first last : Coordinate R.Float) where
  -- `after` has sent more than `before`, and this holds of it
  abbrev Sends : Drive R.Float → Drive R.Float → (List (DrivePosition R.Float) → Type 0) → Type 0
  Sends before after P =
      (new : List (DrivePosition R.Float)) × (after.positions ≡ before.positions ++ new) × P new

  send_steps-Sends :
      (left k steps : ℕ) (from to : Coordinate R.Float) (pace : Pace R.Float)
      (speed distance : R.Float) (d : Drive R.Float)
      → Sends d
          (send_steps R random clock ds first last left k steps from to pace speed distance d)
          (λ new.
            (map (λ p. DrivePosition.coordinate p) new ≡ points R from to left k steps)
            × Steady R speed pace.status distance new)
  unfolding send_steps interpolate_position
  send_steps-Sends zero k steps from to pace speed distance d =
      ([], sym (append-nil d.positions), (refl, tt))
  send_steps-Sends (suc left) k steps from to pace speed distance d =
      let (new, e, (line, steady)) =
        send_steps-Sends left (k + 1) steps from to pace speed distance _ in
      (
        _ ∷ new,
        e ∙ append_assoc d.positions (_ ∷ []) new,
        (ap (λ l. between R from to k steps ∷ l) line, ((refl, refl, refl), steady)),
      )

  steps_of_positive : (z : ℤ) → 1 ≤ steps_of R random clock ds first last z
  unfolding steps_of
  steps_of_positive (pos n) = ground arith
  steps_of_positive (negsuc n) = omega arith

  drive_at-Sends :
      (from to : Coordinate R.Float) (base speed : R.Float) (d : Drive R.Float)
      → Sends d (drive_at R random clock ds first last from to base speed d) (Leg R from to)
  unfolding drive_at steps_between
  drive_at-Sends from to base speed d =
      let distance = haversine_distance R from to in
      let steps = steps_between R random clock ds first last distance speed in
      let (new, e, (line, steady)) =
        send_steps-Sends (steps + 1) 0 steps from to
          (pace_of R random clock ds first last d.last_speed speed) speed distance
          (at_speed R random clock ds first last base speed d) in
      (
        new,
        e,
        record {
          steps = steps;
          some_steps = steps_of_positive _;
          line = line;
          speed = speed;
          status = (pace_of R random clock ds first last d.last_speed speed).status;
          steady = steady;
        },
      )

  drive_pair-Sends :
      (segment : RouteSegment R.Float) (from to : Coordinate R.Float) (d : Drive R.Float)
      → Sends d (drive_pair R random clock ds first last segment from to d) (Leg R from to)
  unfolding drive_pair
  drive_pair-Sends segment from to d =
      let base = base_speed R random clock ds first last segment d in
      drive_at-Sends from to base (current_speed R random clock ds first last base d) d

  halted-Sends :
      (b : Bool) (at : Coordinate R.Float) (d : Drive R.Float)
      → Sends d (if b then stop_at R random clock ds first last at d else d) (Halt R b at)
  unfolding stop_at standing
  halted-Sends true at d = (_ ∷ [], refl, (_, refl, refl, refl, refl))
  halted-Sends false at d = ([], sym (append-nil d.positions), refl)

  drive_pairs-Sends :
      (b : Bool) (segment : RouteSegment R.Float) (cs : List (Coordinate R.Float))
      (d : Drive R.Float)
      → Sends d
          (drive_pairs R random clock ds first last b segment cs d)
          (PairsWay R (b && segment.should_stop) cs)
  unfolding drive_pairs
  drive_pairs-Sends b segment [] d = ([], sym (append-nil d.positions), refl)
  drive_pairs-Sends b segment (c ∷ []) d = ([], sym (append-nil d.positions), refl)
  drive_pairs-Sends b segment (c ∷ e ∷ cs) d =
      let (halt, p, halts) = halted-Sends (b && segment.should_stop) c d in
      let at_first =
        if b && segment.should_stop then stop_at R random clock ds first last c d else d in
      let (leg, q, is_leg) = drive_pair-Sends segment c e at_first in
      let (later, r, way) = drive_pairs-Sends false segment (e ∷ cs) _ in
      (
        halt ++ (leg ++ later),
        r
            ∙ ap (λ l. l ++ later) (q ∙ ap (λ l. l ++ leg) p)
            ∙ ap (λ l. l ++ later) (append_assoc d.positions halt leg)
            ∙ append_assoc d.positions (halt ++ leg) later
            ∙ ap (λ l. d.positions ++ l) (append_assoc halt leg later),
        (halt, leg, later, refl, halts, is_leg, way),
      )

  pub drive_segments-Sends :
      (route : List (RouteSegment R.Float)) (d : Drive R.Float)
      → Sends d (drive_segments R random clock ds first last route d) (RouteWay R route)
  unfolding drive_segments
  drive_segments-Sends [] d = ([], sym (append-nil d.positions), refl)
  drive_segments-Sends (segment ∷ rest) d =
      let (here, p, way) = drive_pairs-Sends true segment segment.coordinates d in
      let (later, q, ways) = drive_segments-Sends rest _ in
      (
        here ++ later,
        q ∙ ap (λ l. l ++ later) p ∙ append_assoc d.positions here later,
        (here, later, refl, way, ways),
      )

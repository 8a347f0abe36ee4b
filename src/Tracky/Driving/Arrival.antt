-- ===== src/Tracky/Driving/Arrival.antt =====
-- What a drive of tracky/src/trackeroo/driving.go sends: positions on the way, then the arrival.
use trackeroo.Base.{
  ◌≡◌, ◌≢◌, refl, ap, ◌∙◌, ℕ, zero, suc, ◌+◌, ◌<◌, inl, inr, Bool, true, false, ◌&&◌, Option, none,
  some, List, [], ◌∷◌, ◌++◌, length, ltb, All, All-append, Bool-cases, Option-cases, if◌then◌else◌,
  Outcome, returned, panicked, ◌>>=◌, arith,
}
use trackeroo.Backend.Model.{Time}
use trackeroo.Tracky.Driving.{
  Floats, Coordinate, RouteSegment, arrived, DrivePosition, haversine_distance,
}
use trackeroo.Tracky.Driving.Legs.{RouteWay, drive_segments-Sends}
use trackeroo.Tracky.Driving.Simulation.{
  DrivingSimulator, Drive, Pace, last_of, first_of, standing, stop_at, pace_of, send_steps,
  departed, base_speed, current_speed, steps_between, at_speed, drive_at, drive_pair, drive_pairs,
  drive_segments, drive_route, simulate_drive,
}

-- a position between the two ends that is not the arrival
abbrev pub OnTheWay : {F : Type 0} → Coordinate F → Coordinate F → DrivePosition F → Type 0
OnTheWay first last p = (p.status ≢ arrived) × (p.start_at ≡ first) × (p.end_at ≡ last)

pace_of_moving :
    (R : Floats) (random : ℕ → R.Float) (clock : ℕ → Time) (ds : DrivingSimulator R.Float)
    (first last : Coordinate R.Float) (a b : R.Float)
    → (pace_of R random clock ds first last a b).status ≢ arrived
unfolding pace_of
pace_of_moving R random clock ds first last a b =
    elim (Bool-cases (R.less (R.mul b (R.decimal 5 100)) (R.abs (R.sub b a)))) [
      | inr e ↦ rw e (λ h. cc)
      | inl e ↦ elim (Bool-cases (R.less a b)) [
        | inl f ↦ rw (e, f) (λ h. cc)
        | inr f ↦ rw (e, f) (λ h. cc)
      ]
    ]

module _ (R : Floats) (random : ℕ → R.Float) (clock : ℕ → Time) (ds : DrivingSimulator R.Float)
    (first last : Coordinate R.Float) where
  abbrev Sent : Drive R.Float → Type 0
  Sent d = All (OnTheWay first last) d.positions

  stop_at-Sent :
      (at : Coordinate R.Float) (d : Drive R.Float)
      → Sent d
      → Sent (stop_at R random clock ds first last at d)
  unfolding stop_at standing
  stop_at-Sent at d h =
      All-append (OnTheWay first last) d.positions _ h (((λ e. cc), refl, refl), tt)

  send_steps-Sent :
      (left step steps : ℕ) (from to : Coordinate R.Float) (pace : Pace R.Float)
      (speed distance : R.Float) (d : Drive R.Float)
      → pace.status ≢ arrived
      → Sent d
      → Sent (send_steps R random clock ds first last left step steps from to pace speed distance d)
  unfolding send_steps
  send_steps-Sent zero step steps from to pace speed distance d n h = h
  send_steps-Sent (suc left) step steps from to pace speed distance d n h =
      send_steps-Sent left (step + 1) steps from to pace speed distance _ n
        (All-append (OnTheWay first last) d.positions _ h ((n, refl, refl), tt))

  drive_at-Sent :
      (from to : Coordinate R.Float) (base speed : R.Float) (d : Drive R.Float)
      → Sent d
      → Sent (drive_at R random clock ds first last from to base speed d)
  unfolding drive_at
  drive_at-Sent from to base speed d h =
      let distance = haversine_distance R from to in
      let steps = steps_between R random clock ds first last distance speed in
      send_steps-Sent (steps + 1) 0 steps from to
        (pace_of R random clock ds first last d.last_speed speed) speed distance
        (at_speed R random clock ds first last base speed d)
        (pace_of_moving R random clock ds first last d.last_speed speed) h

  drive_pair-Sent :
      (segment : RouteSegment R.Float) (from to : Coordinate R.Float) (d : Drive R.Float)
      → Sent d
      → Sent (drive_pair R random clock ds first last segment from to d)
  unfolding drive_pair
  drive_pair-Sent segment from to d h =
      let base = base_speed R random clock ds first last segment d in
      drive_at-Sent from to base (current_speed R random clock ds first last base d) d h

  stopped-Sent :
      (b : Bool) (at : Coordinate R.Float) (d : Drive R.Float)
      → Sent d
      → Sent (if b then stop_at R random clock ds first last at d else d)
  stopped-Sent true at d h = stop_at-Sent at d h
  stopped-Sent false at d h = h

  drive_pairs-Sent :
      (b : Bool) (segment : RouteSegment R.Float) (cs : List (Coordinate R.Float))
      (d : Drive R.Float)
      → Sent d
      → Sent (drive_pairs R random clock ds first last b segment cs d)
  unfolding drive_pairs
  drive_pairs-Sent b segment [] d h = h
  drive_pairs-Sent b segment (c ∷ []) d h = h
  drive_pairs-Sent b segment (c ∷ e ∷ cs) d h = drive_pairs-Sent false segment (e ∷ cs) _ (
      drive_pair-Sent segment c e
        (if b && segment.should_stop then stop_at R random clock ds first last c d else d)
        (stopped-Sent (b && segment.should_stop) c d h))

  drive_segments-Sent :
      (route : List (RouteSegment R.Float)) (d : Drive R.Float)
      → Sent d
      → Sent (drive_segments R random clock ds first last route d)
  unfolding drive_segments
  drive_segments-Sent [] d h = h
  drive_segments-Sent (segment ∷ rest) d h =
      drive_segments-Sent rest _ (drive_pairs-Sent true segment segment.coordinates d h)

-- the first and the last coordinate of a route
abbrev pub start_of : {F : Type 0} → List (RouteSegment F) → Option (Coordinate F)
start_of route = first_of route >>= (λ s. first_of (RouteSegment.coordinates s))

abbrev pub end_of : {F : Type 0} → List (RouteSegment F) → Option (Coordinate F)
end_of route = last_of route >>= (λ s. last_of (RouteSegment.coordinates s))

-- How a drive goes.
pub data Drives (R : Floats) (route : List (RouteSegment R.Float))
    (res : Outcome (List (DrivePosition R.Float))) : Type 0 where
  no_end : end_of route ≡ none → res ≡ panicked → Drives R route res
  no_start : start_of route ≡ none → res ≡ panicked → Drives R route res
  too_short : length route < 2 → res ≡ returned [] → Drives R route res
  arrives :
      (first last : Coordinate R.Float) (way : List (DrivePosition R.Float))
      (final : DrivePosition R.Float)
      → start_of route ≡ some first
      → end_of route ≡ some last
      → All (OnTheWay first last) way
      → RouteWay R route way
      → final.status ≡ arrived
      → final.coordinate ≡ last
      → res ≡ returned (way ++ final ∷ [])
      → Drives R route res

-- the drive, where the end is known
from_end :
    (R : Floats) (random : ℕ → R.Float) (clock : ℕ → Time) (ds : DrivingSimulator R.Float)
    (end : RouteSegment R.Float) (last : Coordinate R.Float)
    → last_of ds.route ≡ some end
    → last_of end.coordinates ≡ some last
    → simulate_drive R random clock ds ≡ (
        if ltb (length ds.route) 2 then returned [] else elim (first_of ds.route) [
          | none ↦ panicked
          | some start ↦ elim (first_of start.coordinates) [
            | none ↦ panicked
            | some first ↦ returned (drive_route R random clock ds first last)
          ]
        ])
unfolding simulate_drive
from_end R random clock ds end last n m = rw (n, simulate_drive, m) refl

without_end :
    (R : Floats) (random : ℕ → R.Float) (clock : ℕ → Time) (ds : DrivingSimulator R.Float)
    → end_of ds.route ≡ none
    → simulate_drive R random clock ds ≡ panicked
unfolding simulate_drive
without_end R random clock ds n = elim (Option-cases (last_of ds.route)) [
  | inl e ↦ rw (e, simulate_drive) refl
  | inr (end, e) ↦ rw (e, simulate_drive, rw e at n) refl
]

driven :
    (R : Floats) (random : ℕ → R.Float) (clock : ℕ → Time) (ds : DrivingSimulator R.Float)
    (first last : Coordinate R.Float)
    → start_of ds.route ≡ some first
    → end_of ds.route ≡ some last
    → Drives R ds.route (returned (drive_route R random clock ds first last))
unfolding drive_route standing
driven R random clock ds first last s e =
    let (new, sent, way) =
      drive_segments-Sends R random clock ds first last ds.route
        (departed R random clock ds first last) in
    arrives first last _ _ s e (drive_segments-Sent R random clock ds first last ds.route _ tt)
      (rw sent way) refl refl refl

started :
    (R : Floats) (random : ℕ → R.Float) (clock : ℕ → Time) (ds : DrivingSimulator R.Float)
    (last : Coordinate R.Float) (o : Option (RouteSegment R.Float))
    → first_of ds.route ≡ o
    → end_of ds.route ≡ some last
    → Drives R ds.route (elim o [
      | none ↦ panicked
      | some start ↦ elim (first_of start.coordinates) [
        | none ↦ panicked
        | some first ↦ returned (drive_route R random clock ds first last)
      ]
    ])
started R random clock ds last none s e =
    no_start (ap (λ o. o >>= (λ s. first_of (RouteSegment.coordinates s))) s) refl
started R random clock ds last (some start) s e =
    let from = ap (λ o. o >>= (λ s. first_of (RouteSegment.coordinates s))) s in
    elim (Option-cases (first_of start.coordinates)) [
      | inl n ↦ rw n (no_start (from ∙ n) refl)
      | inr (first, n) ↦ rw n (driven R random clock ds first last (from ∙ n) e)
    ]

by_length :
    (R : Floats) (random : ℕ → R.Float) (clock : ℕ → Time) (ds : DrivingSimulator R.Float)
    (b : Bool) (res : Outcome (List (DrivePosition R.Float)))
    → ltb (length ds.route) 2 ≡ b
    → Drives R ds.route res
    → Drives R ds.route (if b then returned [] else res)
by_length R random clock ds true res e h = too_short (ground arith) refl
by_length R random clock ds false res e h = h

pub simulate_drive-Drives :
    (R : Floats) (random : ℕ → R.Float) (clock : ℕ → Time) (ds : DrivingSimulator R.Float)
    → Drives R ds.route (simulate_drive R random clock ds)
simulate_drive-Drives R random clock ds = elim (Option-cases (last_of ds.route)) [
  | inl n ↦ let e = ending n in no_end e (without_end R random clock ds e)
  | inr (end, n) ↦ elim (Option-cases (last_of end.coordinates)) [
    | inl m ↦ let e = ending n ∙ m in no_end e (without_end R random clock ds e)
    | inr (last, m) ↦ rw (from_end R random clock ds end last n m) (
        by_length R random clock ds (ltb (length ds.route) 2) _ refl
          (started R random clock ds last (first_of ds.route) refl (ending n ∙ m)))
  ]
]
  where
    ending :
        {o : Option (RouteSegment R.Float)}
        → last_of ds.route ≡ o
        → end_of ds.route ≡ (o >>= (λ s. last_of (RouteSegment.coordinates s)))
    ending n = ap (λ o. o >>= (λ s. last_of (RouteSegment.coordinates s))) n

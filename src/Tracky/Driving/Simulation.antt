-- ===== src/Tracky/Driving/Simulation.antt =====
-- tracky/src/trackeroo/driving.go: `SimulateDrive`. The random numbers and the readings of the clock
-- are streams, and what goes through the channel is a list, the oldest position first.
use trackeroo.Base.{
  ℕ, zero, suc, ◌+◌, ◌-◌, ◌/◌, ltb, ◌&&◌, Bool, true, false, Option, none, some, List, [], ◌∷◌,
  ◌++◌, length, Bytes, if◌then◌else◌, ℤ, pos, negsuc, Outcome, returned, panicked,
}
use trackeroo.Backend.Model.{Time}
use trackeroo.Tracky.Driving.{
  Floats, Coordinate, RouteSegment, Status, arrived, driving_on, stopped, slowing, accelerating,
  DrivePosition, whole, get_consumption, haversine_distance, interpolate_position,
}

-- `update_interval` is in nanoseconds, and not 0: the program gives 100 ms.
pub record DrivingSimulator (F : Type 0) : Type 0 where
  pub route : List (RouteSegment F)
  pub default_average_speed : F
  pub speed_variation : F
  pub dev_type : Bytes
  pub update_interval : ℕ
  pub is_pirate : Bool

-- The variables of the goroutine, how often it has drawn a number and read the clock, and what it
-- has sent.
pub record Drive (F : Type 0) : Type 0 where
  pub current_time : Time
  pub stop_compensation : ℕ
  pub speed_limit : F
  pub last_speed : F
  pub drawn : ℕ
  pub readings : ℕ
  pub positions : List (DrivePosition F)

-- the outcome of the comparison of a speed with the one before
pub record Pace (F : Type 0) : Type 0 where
  pub status : Status
  pub compensation : F

unfoldable pub last_of : {A : Type 0} → List A → Option A
last_of [] = none
last_of (x ∷ []) = some x
last_of (x ∷ y ∷ xs) = last_of (y ∷ xs)

unfoldable pub first_of : {A : Type 0} → List A → Option A
first_of [] = none
first_of (x ∷ xs) = some x

module _ (R : Floats) (random : ℕ → R.Float) (clock : ℕ → Time) (ds : DrivingSimulator R.Float)
    (first last : Coordinate R.Float) where
  abbrev send : DrivePosition R.Float → Drive R.Float → Drive R.Float
  send p d = record d { positions = d.positions ++ p ∷ [] }

  abbrev read_clock : Drive R.Float → Drive R.Float
  read_clock d = record d { current_time = clock d.readings; readings = d.readings + 1 }

  -- the position of a vehicle that stands
  unfoldable pub standing : Status → Coordinate R.Float → Drive R.Float → DrivePosition R.Float
  standing status at d = record {
    coordinate = at;
    timestamp = d.current_time;
    speed = whole R 0;
    speed_limit = d.speed_limit;
    status = status;
    start_at = first;
    end_at = last;
    consumption = whole R 0;
    distance = whole R 0;
  }

  -- the stop at the beginning of a segment; the random number is for its duration
  unfoldable pub stop_at : Coordinate R.Float → Drive R.Float → Drive R.Float
  unfolding standing
  stop_at at d =
      let sent = send (standing stopped at d) d in
      record (read_clock sent) {
        drawn = d.drawn + 1;
        stop_compensation = 3;
        last_speed = whole R 0;
      }

  unfoldable pub pace_of : R.Float → R.Float → Pace R.Float
  pace_of last_speed current_speed =
      let difference = R.abs (R.sub current_speed last_speed) in
      let tolerance = R.mul current_speed (R.decimal 5 100) in
      let speeding_up : Pace R.Float = record {
        status = accelerating;
        compensation = R.decimal 13 10;
      } in
      let braking : Pace R.Float = record { status = slowing; compensation = R.decimal 5 10 } in
      let steady : Pace R.Float = record { status = driving_on; compensation = whole R 1 } in
      if R.less tolerance difference
      then (if R.less last_speed current_speed then speeding_up else braking)
      else steady

  -- `max(int(segmentDuration/ds.UpdateInterval), 1)`
  unfoldable pub steps_of : ℤ → ℕ
  steps_of (pos n) = let q = n / ds.update_interval in if ltb q 1 then 1 else q
  steps_of (negsuc n) = 1

  -- the loop over the steps of a pair; the first argument is how many are left
  unfoldable pub send_steps :
      ℕ
      → ℕ
      → ℕ
      → Coordinate R.Float
      → Coordinate R.Float
      → Pace R.Float
      → R.Float
      → R.Float
      → Drive R.Float
      → Drive R.Float
  unfolding interpolate_position get_consumption
  send_steps zero step steps from to pace speed distance d = d
  send_steps (suc left) step steps from to pace speed distance d =
      let progress = R.div (whole R step) (whole R steps) in
      send_steps left (step + 1) steps from to pace speed distance (
        read_clock (
          send
            (record {
              coordinate = interpolate_position R from to progress;
              timestamp = d.current_time;
              speed = speed;
              speed_limit = d.speed_limit;
              status = pace.status;
              start_at = first;
              end_at = last;
              consumption = R.mul (get_consumption R speed ds.dev_type) pace.compensation;
              distance = distance;
            })
            d))

  -- the speed that is aimed at; it is divided after a stop
  unfoldable pub base_speed : RouteSegment R.Float → Drive R.Float → R.Float
  base_speed segment d =
      let given =
        if R.less (whole R 0) segment.speed_kmh
        then segment.speed_kmh
        else ds.default_average_speed in
      if ltb 1 d.stop_compensation then R.div given (whole R d.stop_compensation) else given

  unfoldable pub current_speed : R.Float → Drive R.Float → R.Float
  current_speed base d =
      let spread =
        R.mul (R.mul (R.sub (random d.drawn) (R.decimal 5 10)) (whole R 2)) ds.speed_variation in
      let varied = R.mul base (R.add (whole R 1) spread) in
      if ds.is_pirate then R.mul varied (R.decimal 140 100) else varied

  unfoldable pub steps_between : R.Float → R.Float → ℕ
  unfolding steps_of
  steps_between distance speed =
      steps_of (R.nanoseconds (R.mul (R.div distance speed) (whole R 3600000000000)))

  abbrev pub at_speed : R.Float → R.Float → Drive R.Float → Drive R.Float
  at_speed base speed d = record d {
    stop_compensation =
        if ltb 1 d.stop_compensation then d.stop_compensation - 1 else d.stop_compensation;
    speed_limit = base;
    drawn = d.drawn + 1;
    last_speed = speed;
  }

  unfoldable pub drive_at :
      Coordinate R.Float → Coordinate R.Float → R.Float → R.Float → Drive R.Float → Drive R.Float
  unfolding send_steps steps_between pace_of haversine_distance
  drive_at from to base speed d =
      let distance = haversine_distance R from to in
      let steps = steps_between distance speed in
      send_steps (steps + 1) 0 steps from to (pace_of d.last_speed speed) speed distance
        (at_speed base speed d)

  -- from the choice of the speed on
  unfoldable pub drive_pair :
      RouteSegment R.Float → Coordinate R.Float → Coordinate R.Float → Drive R.Float → Drive R.Float
  unfolding drive_at base_speed current_speed
  drive_pair segment from to d =
      let base = base_speed segment d in drive_at from to base (current_speed base d) d

  -- The loop over the pairs of neighbouring coordinates; the flag says that this is the first pair.
  unfoldable pub drive_pairs :
      Bool → RouteSegment R.Float → List (Coordinate R.Float) → Drive R.Float → Drive R.Float
  unfolding drive_pair stop_at
  drive_pairs is_first segment [] d = d
  drive_pairs is_first segment (from ∷ []) d = d
  drive_pairs is_first segment (from ∷ to ∷ more) d =
      drive_pairs false segment (to ∷ more)
        (drive_pair segment from to (if is_first && segment.should_stop then stop_at from d else d))

  unfoldable pub drive_segments : List (RouteSegment R.Float) → Drive R.Float → Drive R.Float
  unfolding drive_pairs
  drive_segments [] d = d
  drive_segments (segment ∷ rest) d =
      drive_segments rest (drive_pairs true segment segment.coordinates d)

  abbrev pub departed : Drive R.Float
  departed = record {
    current_time = clock 0;
    stop_compensation = 1;
    speed_limit = whole R 0;
    last_speed = whole R 0;
    drawn = 0;
    readings = 1;
    positions = [];
  }

  -- what the goroutine sends on a route of at least two segments
  unfoldable pub drive_route : List (DrivePosition R.Float)
  unfolding drive_segments standing
  drive_route =
      let d = drive_segments ds.route departed in d.positions ++ standing arrived last d ∷ []

-- All that comes out of the channel. Without a last coordinate the call panics; without a first one
-- the goroutine panics when it sends for the first time, which it does at the latest at the end.
unfoldable pub simulate_drive :
    (R : Floats)
    → (ℕ → R.Float)
    → (ℕ → Time)
    → DrivingSimulator R.Float
    → Outcome (List (DrivePosition R.Float))
unfolding drive_route last_of first_of
simulate_drive R random clock ds = elim (last_of ds.route) [
  | none ↦ panicked
  | some end ↦ elim (last_of end.coordinates) [
    | none ↦ panicked
    | some last ↦ if ltb (length ds.route) 2 then returned [] else elim (first_of ds.route) [
      | none ↦ panicked
      | some start ↦ elim (first_of start.coordinates) [
        | none ↦ panicked
        | some first ↦ returned (drive_route R random clock ds first last)
      ]
    ]
  ]
]

-- ===== src/Tracky/Sensors.antt =====
-- tracky/src/firmware.go: the sensors of a message. Random numbers are a stream.
use trackeroo.Base.{ℕ, ◌+◌, ◌&&◌, not, Bool, true, false, Bytes, codes, bytes_eq, if◌then◌else◌, ℤ}
use trackeroo.Tracky.Config.{Credentials}
use trackeroo.Tracky.Driving.{
  Floats, Coordinate, Status, arrived, driving_on, stopped, slowing, accelerating, DrivePosition,
  whole,
}
use trackeroo.Tracky.StatVar.{StatVar}

pub record ValuableSensors (F : Type 0) : Type 0 where
  pub alarm : Bool
  pub vibration : F
  pub rear_hatch_open : Bool
  pub front_hatch_open : Bool
  pub collision : Bool

pub record FoodSensors (F : Type 0) : Type 0 where
  pub rear_hatch_open : Bool
  pub front_hatch_open : Bool
  pub temperature : F
  pub humidity : F
  pub pressure : F

pub data Sensors (F : Type 0) : Type 0 where
  no_sensors : Sensors F
  valuable_sensors : ValuableSensors F → Sensors F
  food_sensors : FoodSensors F → Sensors F

pub record Payload (F : Type 0) : Type 0 where
  pub ts : ℤ
  pub speed : F
  pub speed_limit : F
  pub speed_stats : StatVar F
  pub position : Coordinate F
  pub device_name : Bytes
  pub device_type : Bytes
  pub device_id : Bytes
  pub status : Status
  pub sensors : Sensors F
  pub start_at : Coordinate F
  pub end_at : Coordinate F
  pub instant_consumption : F
  pub consumption_stats : StatVar F
  pub delta_distance : F

-- the comparison of the texts of two statuses
unfoldable pub status_eq : Status → Status → Bool
status_eq arrived arrived = true
status_eq driving_on driving_on = true
status_eq stopped stopped = true
status_eq slowing slowing = true
status_eq accelerating accelerating = true
status_eq _ _ = false

-- What the loop reads: the streams, the credentials, the period, and whether the JSON encoder takes
-- a payload.
pub record Surroundings (R : Floats) : Type 0 where
  pub random : ℕ → R.Float
  pub monotonic : ℕ → ℕ
  pub creds : Credentials
  pub period : ℤ
  pub marshals : Payload R.Float → Bool

module _ (R : Floats) (x : Surroundings R) where
  abbrev Position : Type 0
  Position = DrivePosition R.Float

  unfoldable pub at_arrival : Position → Bool
  unfolding status_eq
  at_arrival p = status_eq p.status arrived

  -- Each takes the number of the first random number that it draws.
  unfoldable pub normal_valuables_data : ℕ → Position → ValuableSensors R.Float
  unfolding at_arrival
  normal_valuables_data n p = record {
    alarm = false;
    vibration = R.mul (x.random n) (whole R 100);
    rear_hatch_open = at_arrival p;
    front_hatch_open = at_arrival p;
    collision = false;
  }

  unfoldable pub robbery_valuables_data : ℕ → ValuableSensors R.Float
  robbery_valuables_data n = record {
    alarm = true;
    vibration = R.add (whole R 100) (R.mul (x.random n) (whole R 300));
    rear_hatch_open = true;
    front_hatch_open = R.less (x.random (n + 1)) (R.decimal 5 10);
    collision = true;
  }

  unfoldable pub normal_food_data : ℕ → Position → FoodSensors R.Float
  unfolding at_arrival
  normal_food_data n p = record {
    temperature = R.add (whole R 2) (R.mul (x.random n) (whole R 2));
    humidity = R.add (whole R 60) (R.mul (x.random (n + 1)) (whole R 10));
    pressure = R.add (R.decimal 101325 100) (R.mul (x.random (n + 2)) (whole R 10));
    rear_hatch_open = at_arrival p;
    front_hatch_open = at_arrival p;
  }

  unfoldable pub altered_food_data : ℕ → Position → FoodSensors R.Float
  unfolding at_arrival
  altered_food_data n p = record {
    temperature = R.add (whole R 4) (R.mul (x.random n) (whole R 7));
    humidity = R.add (whole R 70) (R.mul (x.random (n + 1)) (whole R 30));
    pressure = R.add (R.decimal 101325 100) (R.mul (x.random (n + 2)) (whole R 100));
    rear_hatch_open = R.less (x.random (n + 3)) (R.decimal 5 100);
    front_hatch_open = at_arrival p;
  }

  -- The sensors of a message and how many random numbers they have drawn. The normal ones are drawn
  -- even where others take their place.
  unfoldable pub sensors_of : Bool → ℕ → Position → Sensors R.Float × ℕ
  unfolding normal_valuables_data robbery_valuables_data normal_food_data altered_food_data
      at_arrival bytes_eq
  sensors_of normal_run n p =
      if bytes_eq x.creds.device_type (codes "valuable")
      then (if not normal_run && at_arrival p
          then (valuable_sensors (robbery_valuables_data (n + 1)), 3)
          else (valuable_sensors (normal_valuables_data n p), 1))
      else if bytes_eq x.creds.device_type (codes "food")
      then (if normal_run
          then (food_sensors (normal_food_data n p), 3)
          else (food_sensors (altered_food_data (n + 3) p), 7))
      else (no_sensors, 0)

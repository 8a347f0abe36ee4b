-- ===== src/Tracky/Firmware.antt =====
-- tracky/src/firmware.go: what the loop makes of the positions of a drive. The readings of the
-- monotonic clock, in nanoseconds, are a stream.
pub mod Reporting
use trackeroo.Base.{
  ℕ, zero, suc, ◌+◌, ◌-◌, ◌*◌, ltb, ◌&&◌, ◌||◌, not, Bool, true, false, Option, none, some, List,
  [], ◌∷◌, ◌++◌, Bytes, codes, bytes_eq, if◌then◌else◌, ℤ, pos, negsuc, wrap64, minus, negate,
}
use trackeroo.Base.Decimal.{parse_int}
use trackeroo.Tracky.Config.{Credentials}
use trackeroo.Tracky.Driving.{
  Floats, Coordinate, Status, arrived, driving_on, stopped, slowing, accelerating, DrivePosition,
  whole,
}
use trackeroo.Tracky.StatVar.{StatVar, new_stat_var, add, get}
use trackeroo.Tracky.Sensors.{
  ValuableSensors, FoodSensors, Sensors, Payload, status_eq, Surroundings, sensors_of,
}

unfoldable pub is_new_status : Option Status → Status → Bool
unfolding status_eq
is_new_status none s = true
is_new_status (some t) s = not (status_eq t s)

-- `time.Duration(p) * time.Millisecond`
unfoldable pub milliseconds : ℤ → ℤ
unfolding wrap64
milliseconds (pos n) = wrap64 (pos (n * 1000000))
milliseconds (negsuc n) = wrap64 (negsuc ((n + 1) * 1000000 - 1))

-- The period between two messages, from the variable PUBLISH_PERIOD.
unfoldable pub pub_period : Bytes → ℤ
unfolding milliseconds parse_int
pub_period [] = pos 2000000000
pub_period (c ∷ s) = elim (parse_int (c ∷ s)) [ none ↦ pos 2000000000 | some p ↦ milliseconds p ]

unfoldable pub exceeds : ℕ → ℤ → Bool
exceeds since (pos period) = ltb period since
exceeds since (negsuc n) = true

-- The variables of the loop; `last_status` is nothing at first, and `queued` what was given to
-- EnqueueData, the oldest first.
pub record Loop (F : Type 0) : Type 0 where
  pub last_publish : ℕ
  pub last_status : Option Status
  pub normal_run : Bool
  pub delta_distance : F
  pub speed_var : StatVar F
  pub consumption_var : StatVar F
  pub drawn : ℕ
  pub readings : ℕ
  pub queued : List (Payload F)

module _ (R : Floats) (x : Surroundings R) where
  abbrev Position : Type 0
  Position = DrivePosition R.Float

  -- the statistics and the distance of a position
  unfoldable pub accumulated : Position → Loop R.Float → Loop R.Float
  unfolding add
  accumulated p l = record l {
    delta_distance = R.add l.delta_distance p.distance;
    speed_var = add R p.speed l.speed_var;
    consumption_var = add R p.consumption l.consumption_var;
    readings = l.readings + 1;
  }

  unfoldable pub payload_of : Position → Loop R.Float → Payload R.Float
  unfolding get sensors_of
  payload_of p l = record {
    ts = p.timestamp.sec;
    speed = p.speed;
    speed_limit = p.speed_limit;
    speed_stats = (get R l.speed_var).0;
    position = record { lat = p.coordinate.lat; lng = p.coordinate.lng };
    device_name = x.creds.name;
    device_type = x.creds.device_type;
    device_id = [];
    status = p.status;
    sensors = (sensors_of R x l.normal_run l.drawn p).0;
    start_at = p.start_at;
    end_at = p.end_at;
    instant_consumption = p.consumption;
    consumption_stats = (get R l.consumption_var).0;
    delta_distance = l.delta_distance;
  }

  -- The message of a position. Where it cannot be encoded, `lastPublish` stays.
  unfoldable pub reported : Position → Loop R.Float → Loop R.Float
  unfolding get payload_of sensors_of
  reported p l =
      let payload = payload_of p l in
      let reset : Loop R.Float = record l {
        last_status = some p.status;
        speed_var = (get R l.speed_var).1;
        consumption_var = (get R l.consumption_var).1;
        delta_distance = whole R 0;
        drawn = l.drawn + (sensors_of R x l.normal_run l.drawn p).1;
      } in
      if x.marshals payload
      then record reset {
        queued = l.queued ++ payload ∷ [];
        last_publish = x.monotonic l.readings;
        readings = l.readings + 1;
      }
      else reset

  -- the body of the loop over the positions of a drive
  unfoldable pub on_position : Position → Loop R.Float → Loop R.Float
  unfolding accumulated reported exceeds is_new_status
  on_position p l =
      let l' = accumulated p l in
      if exceeds (x.monotonic l.readings - l.last_publish) x.period
        || is_new_status l.last_status p.status
      then reported p l'
      else l'

  unfoldable pub on_positions : List Position → Loop R.Float → Loop R.Float
  unfolding on_position
  on_positions [] l = l
  on_positions (p ∷ ps) l = on_positions ps (on_position p l)

  -- whether the run stays normal, drawn before each drive; `forced` says that NORMAL_RUN is "false"
  unfoldable pub choose_run : Bool → Loop R.Float → Loop R.Float
  choose_run forced l = record l {
    normal_run =
        if R.less (x.random l.drawn) (R.decimal 5 100) || forced then false else l.normal_run;
    drawn = l.drawn + 1;
  }

  -- One drive, from its positions. A route that cannot be found leaves the loop as it was.
  unfoldable pub one_drive : Bool → Option (List Position) → Loop R.Float → Loop R.Float
  unfolding on_positions choose_run
  one_drive forced none l = l
  one_drive forced (some ps) l = on_positions ps (choose_run forced l)

  unfoldable pub loop_start : Loop R.Float
  unfolding new_stat_var
  loop_start = record {
    last_publish = x.monotonic 0;
    last_status = none;
    normal_run = true;
    delta_distance = whole R 0;
    speed_var = new_stat_var R;
    consumption_var = new_stat_var R;
    drawn = 0;
    readings = 1;
    queued = [];
  }

-- ===== src/Tests/Drive.antt =====
-- A short drive, a message with two jobs, and the start of the bridge.
use trackeroo.Base.{
  ◌≡◌, refl, ℕ, ltb, leb, ◌==◌, ◌≤◌, arith, length, Bytes, ◌+◌, ◌-◌, ◌*◌, ◌/◌, true, false, none,
  some, List, [], ◌∷◌, map, codes, bytes_eq, pos, negsuc, returned,
}
use trackeroo.Backend.Model.{zero_time}
use trackeroo.Tracky.Driving.{Floats, Coordinate, RouteSegment, DrivePosition}
use trackeroo.Tracky.Driving.Routing.{query_escape}
use trackeroo.Tracky.Driving.Simulation.{
  DrivingSimulator, simulate_drive, drive_route, drive_segments, drive_pairs, stop_at, drive_pair,
  drive_at, send_steps, steps_between, steps_of, last_of, first_of,
}
use trackeroo.Tracky.Jobs.{
  null, index, as_map, map_or_nil, number, Fields, no_fields, field, test_result, test,
}
use trackeroo.Tracky.Mqtt.{Effect, TdmClient, ran, handle_dn_msg}
use trackeroo.Tracky.Mqtt.Dispatch.{Entry, wanted, incomplete, ignored, status_message}
use trackeroo.Tracky.Sensors.{Surroundings}
use trackeroo.Tracky.Firmware.{one_drive, loop_start}
use trackeroo.Tracky.Firmware.Reporting.{Reported, one_drive-Reported}
use trackeroo.Tracky.Routes.{get_route}
use trackeroo.Backend.Token.{gen_private_key}
use trackeroo.Backend.Logger.{run_all}
use trackeroo.GenMongoDev.{
  Generated, Streams, Listed, finished, generate_list, generate, draw_unused, is_used, name_of,
  nothing_yet,
}

escaped : query_escape (codes "Via Roma, 1") ≡ codes "Via+Roma%2C+1"
unfolding query_escape
escaped = refl

-- natural numbers in the place of the floats
abbrev naturals : Floats
naturals = record {
  Float = ℕ;
  decimal = λ n d. n;
  add = λ a b. a + b;
  sub = λ a b. a - b;
  mul = λ a b. a * b;
  div = λ a b. a / b;
  less = λ a b. ltb a b;
  at_most = λ a b. leb a b;
  equal = λ a b. a == b;
  abs = λ a. a;
  log = λ a. a;
  sin = λ a. a;
  cos = λ a. a;
  sqrt = λ a. a;
  atan2 = λ a b. a;
  pi = 3;
  float32 = λ a. a;
  nanoseconds = λ a. pos a;
  print = λ a. codes "0";
  scan = λ s. none;
}

abbrev at_lat : ℕ → Coordinate ℕ
at_lat n = record { lat = n; lng = 0 }

abbrev segment : List (Coordinate ℕ) → RouteSegment ℕ
segment cs = record { coordinates = cs; speed_kmh = 0; should_stop = true }

abbrev simulator : DrivingSimulator ℕ
simulator = record {
  route = segment (at_lat 1 ∷ at_lat 2 ∷ []) ∷ segment (at_lat 2 ∷ at_lat 5 ∷ []) ∷ [];
  default_average_speed = 60;
  speed_variation = 0;
  dev_type = codes "food";
  update_interval = 100000000;
  is_pirate = false;
}

abbrev client : TdmClient
client = record {
  creds = record {
    id = codes "trk-01";
    name = codes "van";
    device_type = codes "food";
    private_key = codes "";
    mqtt_host = codes "";
    mqtt_port = pos 1883;
    mqtt_mode = codes "insecure";
    ca_cert = codes "";
  };
  broker = codes "";
  port = pos 1883;
  mode = codes "insecure";
  client_id = codes "trk-01";
  topic_up = codes "j/up/trk-01";
  topic_dn = codes "j/dn/trk-01";
  topic_data = codes "j/data/trk-01";
}

abbrev operands : Fields ℕ
operands = field (codes "a") (number 3) (field (codes "b") (number 5) no_fields)

summed : test (λ n. pos n) operands ≡ test_result (pos 8) (negsuc 1) (codes "a: 3 - b: 5")
unfolding test bytes_eq
summed = refl

-- a job, no job, one that does not exist, one without arguments, and one behind it
abbrev expected : List (Entry ℕ)
unfolding as_map index map_or_nil
expected =
    wanted (codes "test") operands
    ∷ ignored b'x' (codes "test") null refl
    ∷ wanted (codes "fly") no_fields
    ∷ incomplete (codes "test") null refl
    ∷ wanted (codes "test") operands
    ∷ []

abbrev replies : List (Effect ℕ)
replies =
    map (ran (λ n. pos n) client)
      (handle_dn_msg (λ n. pos n) client (λ s. some (status_message expected)) (codes "{}")).0

-- the drive as the firmware reports it
abbrev sent : List (DrivePosition ℕ)
sent = drive_route naturals (λ n. 0) (λ n. zero_time) simulator (at_lat 1) (at_lat 5)

drives : simulate_drive naturals (λ n. 0) (λ n. zero_time) simulator ≡ returned sent
unfolding simulate_drive last_of first_of
drives = refl

abbrev firmware : Surroundings naturals
firmware = record {
  random = λ n. 0;
  monotonic = λ n. 0;
  creds = TdmClient.creds client;
  period = pos 2000000000;
  marshals = λ q. true;
}

two_at_least : 2 ≤ length sent
unfolding drive_route drive_segments drive_pairs stop_at drive_pair drive_at send_steps
    steps_between steps_of
two_at_least = omega arith

one_drive-Reported_example :
    Reported
      (at_lat 5)
      (one_drive naturals firmware false (some sent) (loop_start naturals firmware)).queued
unfolding last_of
one_drive-Reported_example =
    one_drive-Reported naturals (λ n. 0) (λ n. zero_time) simulator firmware false sent (at_lat 5)
      (loop_start naturals firmware) drives refl two_at_least (λ q. refl)

-- two devices for the development database, the second name at the third draw
abbrev streams : Streams
streams = record {
  name_index = λ n. n / 2;
  new_id = λ n. n ∷ [];
  key = λ n. some (codes "ab");
  type_index = λ n. n;
  connected = λ n. true;
  last_message = λ n. codes "2025";
  created_at = λ n. codes "2025";
}

names_of : Listed → List Bytes
names_of (finished l) = map (λ g. Generated.name g) l.printed
names_of _ = []

two_devices :
    names_of (generate_list 3 streams 2 0 nothing_yet)
    ≡ codes "amazing_turing" ∷ codes "boring_wozniak" ∷ []
unfolding names_of generate_list generate draw_unused is_used bytes_eq name_of gen_private_key
two_devices = refl

-- the logger
logged :
    run_all
      ((3, codes "a") ∷ (0, codes "b") ∷ [])
      (record { log_level = 1; waiting = (3, codes "a") ∷ (0, codes "b") ∷ []; printed = [] })
    ≡ record { log_level = 1; waiting = []; printed = (3, codes "a") ∷ [] }
unfolding run_all
logged = refl

-- a route that goes on where the last one ended
from_the_end :
    get_route (codes "Pisa") 0 1
    ≡ returned (codes "Pisa" ∷ codes "Borgo Stretto, Pisa, Italy, 56127" ∷ [])
unfolding get_route
from_the_end = refl

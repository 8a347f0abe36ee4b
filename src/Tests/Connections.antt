-- ===== src/Tests/Connections.antt =====
-- Runs of the broker's connection events, and of the status of two devices.
use trackeroo.Base.{
  ◌≡◌, refl, true, false, none, some, List, [], ◌∷◌, Bytes, codes, lookup, arith, pos, negsuc,
  ◌>>=◌, if◌then◌else◌, bytes_eq,
}
use trackeroo.Base.Decimal.{parse_int, parse_bool}
use trackeroo.Backend.Model.{DeviceStatus, empty_status}
use trackeroo.Backend.Connectivity.{
  init_connectivity_cache, unix, get_device_status, get_devices_status,
}
use trackeroo.Backend.Connectivity.History.{Event, replay, status_of, InRange}
use trackeroo.Backend.Connectivity.Refinement.{kept_as, get_device_status-replay}
use trackeroo.Backend.Connectivity.Listing.{among, listed, get_devices_status-replay}
use trackeroo.Backend.Rabbit.{
  Message, Watcher, Input, channel_closed, received, Session, get_client_ip, consume,
  run_rabbit_watcher,
}
use trackeroo.Backend.Rabbit.Watching.{
  Balanced, run_rabbit_watcher-Balanced, heard, get_device_status-consume,
}

-- strconv
accepted :
    (parse_int (codes "-42") ≡ some (negsuc 41))
    × (parse_int (codes "+7") ≡ some (pos 7))
    × (parse_int (codes "007") ≡ some (pos 7))
    × (parse_bool (codes "T") ≡ some true)
unfolding parse_int parse_bool bytes_eq
accepted = (refl, refl, refl, refl)

refused :
    (parse_int (codes "") ≡ none)
    × (parse_int (codes "-") ≡ none)
    × (parse_int (codes "12x") ≡ none)
    × (parse_int (codes "9223372036854775808") ≡ none)
    × (parse_bool (codes "tRUE") ≡ none)
unfolding parse_int parse_bool bytes_eq
refused = (refl, refl, refl, refl, refl)

abbrev van : Bytes
van = codes "trk-01"

-- the van connects at 5, disconnects at 9 and connects again at 12
abbrev history : List Event
history =
    record { dev_id = van; ip = codes "10.0.0.9"; timestamp = unix (pos 12); connected = true }
    ∷ record { dev_id = van; ip = codes ""; timestamp = unix (pos 9); connected = false }
    ∷ record { dev_id = van; ip = codes "10.0.0.7"; timestamp = unix (pos 5); connected = true }
    ∷ []

abbrev van_status : DeviceStatus
van_status = record {
  connected = true;
  last_connection = unix (pos 12);
  last_disconnection = unix (pos 9);
  last_ip = codes "10.0.0.9";
}

status_of-van : status_of van history ≡ some van_status
unfolding status_of bytes_eq
status_of-van = refl

in_range : InRange history
in_range = (omega arith, (omega arith, (omega arith, tt)))

get_device_status-replay_example :
    get_device_status true van (replay history (init_connectivity_cache true []))
    ≡ (status_of van history >>= (λ s. some (kept_as true s)))
get_device_status-replay_example = get_device_status-replay true van history in_range

get_devices_status-replay_example :
    (lookup van
        (get_devices_status true (van ∷ []) (replay history (init_connectivity_cache false []))).0
      ≡ (if among van (van ∷ [])
          then some (if false then listed (status_of van history) else empty_status)
          else none))
    × ((get_devices_status true (van ∷ []) (replay history (init_connectivity_cache false []))).1
        ≡ false)
get_devices_status-replay_example = get_devices_status-replay false van (van ∷ []) history in_range

-- the message of a new connection, and one without a user
abbrev connects : Message
connects = record {
  user = some van;
  name = some (codes "10.0.0.7:53112 -> 172.18.0.2:1883");
  timestamp = unix (pos 5);
  routing_key = codes "connection.created";
}

abbrev anonymous : Message
anonymous = record {
  user = none;
  name = none;
  timestamp = unix (pos 6);
  routing_key = codes "connection.created";
}

abbrev inputs : List Input
inputs = received connects ∷ received anonymous ∷ channel_closed ∷ []

abbrev watcher : Watcher
watcher = record {
  connectivity = init_connectivity_cache true [];
  open_conns = 1;
  open_channels = 1;
  acked = 0;
  naps = 0;
}

get_device_status-consume_example :
    get_device_status true van (consume inputs watcher).0.connectivity
    ≡ (status_of van (heard inputs []) >>= (λ s. some (kept_as true s)))
unfolding bytes_eq
get_device_status-consume_example =
    get_device_status-consume true van inputs watcher refl (omega arith, tt)

server_side : get_client_ip (codes "10.0.0.7:53112 -> 172.18.0.2:1883") ≡ codes "172.18.0.2"
unfolding get_client_ip
server_side = refl

-- the declaration of the queue fails, then the broker closes the channel
abbrev sessions : List Session
sessions =
    record {
      done = false;
      dial = true;
      channel = true;
      declare = false;
      bind = true;
      subscribe = true;
      inputs = [];
    }
    ∷ record {
      done = false;
      dial = true;
      channel = true;
      declare = true;
      bind = true;
      subscribe = true;
      inputs = inputs;
    }
    ∷ []

run_rabbit_watcher-Balanced_example : Balanced watcher (run_rabbit_watcher sessions watcher)
run_rabbit_watcher-Balanced_example = run_rabbit_watcher-Balanced sessions watcher

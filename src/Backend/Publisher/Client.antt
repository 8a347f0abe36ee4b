-- ===== src/Backend/Publisher/Client.antt =====
-- trackeroo-backend/src/internal/service/mqtt.go: the publisher's client, and its loop over turns.
pub mod Draining
pub mod Acking
pub mod Turning
pub mod Failing
use trackeroo.Base.{ℕ, Bool, true, false, List, [], ◌∷◌, ◌++◌, Bytes, codes, pos}
use trackeroo.Base.Decimal.{format_int}
use trackeroo.Backend.Token.{Host, getenv_or_default}
use trackeroo.Backend.Pq.{Queues}
use trackeroo.Backend.Publisher.{Turn, End, went, stuck, crashed, Sent, publish_next}

pub record TdmClient : Type 0 where
  pub broker : Bytes
  pub heartbeat : ℕ
  pub port : Bytes
  pub client_id : Bytes
  pub username : Bytes
  pub password : Bytes
  pub clean_session : Bool
  pub topic_data : Bytes
  pub running : Bool

-- `nanoseconds` is the clock's Unix time, for a client without the variable POD_NAME.
unfoldable pub new_tdm_client : Host → ℕ → TdmClient
unfolding getenv_or_default format_int
new_tdm_client h nanoseconds = record {
  broker = getenv_or_default h (codes "MQTT_BROKER") (codes "rabbitmq");
  port = getenv_or_default h (codes "MQTT_PORT") (codes "1883");
  client_id =
      getenv_or_default h (codes "POD_NAME") (codes "trackeroo-" ++ format_int (pos nanoseconds));
  username = getenv_or_default h (codes "MQTT_USERNAME") (codes "admin");
  password = getenv_or_default h (codes "MQTT_PASSWORD") (codes "admin123");
  clean_session = true;
  heartbeat = 10;
  topic_data = codes "j/data/";
  running = false;
}

-- what the client is made with, times in seconds
pub record Options : Type 0 where
  pub url : Bytes
  pub username : Bytes
  pub password : Bytes
  pub client_id : Bytes
  pub keep_alive : ℕ
  pub ping_timeout : ℕ
  pub auto_reconnect : Bool

unfoldable pub init_client : TdmClient → Options
init_client t = record {
  url = codes "mqtt://" ++ (t.broker ++ (codes ":" ++ t.port));
  username = t.username;
  password = t.password;
  client_id = t.client_id;
  keep_alive = t.heartbeat;
  ping_timeout = t.heartbeat;
  auto_reconnect = true;
}

unfoldable pub start : TdmClient → TdmClient
start t = record t { running = true }

unfoldable pub stop : TdmClient → TdmClient
stop t = record t { running = false }

unfoldable pub run_after : End → (Queues → Sent → End) → End
run_after (went qs sent) next = next qs sent
run_after (stuck qs sent) next = stuck qs sent
run_after (crashed qs sent) next = crashed qs sent

-- The loop of `run` as far as its turns go in which the client is connected and still running.
unfoldable pub run_turns : ℕ → List Turn → Queues → Sent → End
unfolding publish_next run_after
run_turns fuel [] qs sent = went qs sent
run_turns fuel (a ∷ more) qs sent = run_after (publish_next a fuel qs sent) (run_turns fuel more)

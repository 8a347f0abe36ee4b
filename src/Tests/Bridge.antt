-- ===== src/Tests/Bridge.antt =====
-- The bridge on a message of a device, with a JSON decoder that knows one payload.
use trackeroo.Base.{
  ℕ, ◌≡◌, ◌≢◌, ◌↔◌, refl, inl, Bool, true, Option, none, some, List, [], ◌∷◌, arith, codes, Bytes,
  bytes_eq, Dict, lookup, ℤ, pos, Lacks, ltb, if◌then◌else◌,
}
use trackeroo.Brokeroo.{
  Any, int64, float64, Codec, Bridge, Replies, created, already_exists, has_key, add_row, is_known,
  sanitize_topic, parse_topic, message_handler, insert_data, ensure_topic_exists, create_topic,
  store, decoded, publish, forward,
}
use trackeroo.Brokeroo.Topics.{data_topic, parse_topic_iff, sanitize-Lacks}
use trackeroo.Brokeroo.Delivery.{Handles, message_handler-Handles}
use trackeroo.Brokeroo.Clock.{NumbersAreFloats, IsFine, row_of, message_handler-clock}
use trackeroo.Brokeroo.Kafka.{KnownExist, Honest, Arrival, handle_all, handle_all-KnownExist}
use trackeroo.Brokeroo.Connect.{connect_mqtt, Connects, connect_mqtt-Connects}
use trackeroo.Brokeroo.{Config, load_config}
use trackeroo.Brokeroo.Lifecycle.{with_writer, Answers, new_service, start, stop}
use trackeroo.Brokeroo.Lifecycle.Stopping.{IsClosed, stop-start}

abbrev payload : Bytes
payload = codes "{\"ts\":7}"

abbrev fields : Dict Any
fields = (codes "ts", float64 7) ∷ []

unmarshal : Bytes → Option (Dict Any)
unmarshal p = if bytes_eq p payload then some fields else none

abbrev codec : Codec
codec = record { unmarshal = unmarshal; rfc3339 = λ t. codes "2025-01-01T00:00:00Z" }

no_integer : (k : Bytes) (n : ℤ) → lookup k fields ≢ some (int64 n)
unfolding lookup
no_integer k n e = ground arith

codec-NumbersAreFloats : NumbersAreFloats codec
unfolding unmarshal
codec-NumbersAreFloats p k fs n e f = ground (arith, no_integer k n)

abbrev fine : Replies
fine = record {
  inserts = true;
  dials = true;
  finds_controller = true;
  dials_controller = true;
  creates = created;
  marshals = true;
  accepts = true;
}

fine-IsFine : IsFine fine
fine-IsFine = record {
  inserts = refl;
  dials = refl;
  finds_controller = refl;
  dials_controller = refl;
  creates = λ e. cc;
  marshals = refl;
  accepts = refl;
}

abbrev topic : Bytes
topic = codes "j/data/trk-01/gps"

abbrev empty_bridge : Bridge
empty_bridge = record { known_topics = []; rows = []; kafka_topics = []; handed_over = [] }

parse_topic_topic : parse_topic topic ≡ some (codes "trk-01", codes "gps")
unfolding parse_topic bytes_eq
parse_topic_topic = refl

unmarshal_payload : codec.unmarshal payload ≡ some fields
unfolding unmarshal bytes_eq
unmarshal_payload = refl

message_handler-Handles_example :
    Handles codec
      (pos 9)
      topic
      payload
      empty_bridge
      (message_handler codec fine (pos 9) topic payload empty_bridge)
message_handler-Handles_example =
    message_handler-Handles codec fine (pos 9) topic payload empty_bridge

message_handler-clock_example :
    ((message_handler codec fine (pos 9) topic payload empty_bridge).1 ≡ true)
    × ((message_handler codec fine (pos 9) topic payload empty_bridge).0.rows
        ≡ add_row (row_of (pos 9) (codes "trk-01") (codes "gps") payload) empty_bridge.rows)
message_handler-clock_example =
    message_handler-clock codec fine (pos 9) topic payload (codes "trk-01") (codes "gps") fields
      empty_bridge codec-NumbersAreFloats fine-IsFine parse_topic_topic unmarshal_payload

-- another message of the device has been stored in the same second
abbrev busy_bridge : Bridge
busy_bridge = record empty_bridge {
  rows = row_of (pos 9) (codes "trk-01") (codes "temperature") payload ∷ [];
}

busy_bridge_key : has_key (pos 9) (codes "trk-01") busy_bridge.rows ≡ true
unfolding has_key bytes_eq
busy_bridge_key = refl

parse_topic_iff_example : (parse_topic topic ≡ some (codes "trk-01", codes "gps")) ↔ (
    (topic ≡ data_topic (codes "trk-01") (codes "gps"))
    × Lacks b'/' (codes "trk-01")
    × Lacks b'/' (codes "gps"))
parse_topic_iff_example = parse_topic_iff topic (codes "trk-01") (codes "gps")

sanitize-Lacks_example : Lacks b'/' (sanitize_topic topic)
sanitize-Lacks_example = sanitize-Lacks topic

abbrev two_messages : List Arrival
two_messages =
    record { replies = fine; now = pos 9; topic = topic; payload = payload }
    ∷ record {
      replies = record fine { creates = already_exists };
      now = pos 10;
      topic = topic;
      payload = payload;
    }
    ∷ []

two_messages-Honest : Honest codec two_messages empty_bridge
unfolding message_handler parse_topic decoded unmarshal store publish forward ensure_topic_exists
    create_topic insert_data sanitize_topic is_known bytes_eq lookup
two_messages-Honest = (λ e. cc, (λ e. inl refl, tt))

empty_bridge-KnownExist : KnownExist empty_bridge
unfolding is_known lookup
empty_bridge-KnownExist t e = ground arith

handle_all-KnownExist_example : KnownExist (handle_all codec two_messages empty_bridge)
handle_all-KnownExist_example =
    handle_all-KnownExist codec two_messages empty_bridge two_messages-Honest
      empty_bridge-KnownExist

-- the broker is up from the fourth attempt on
abbrev fourth : ℕ → Bool
fourth i = ltb 2 i

connect_mqtt-Connects_example : Connects fourth 0 (connect_mqtt fourth 11 0)
connect_mqtt-Connects_example = connect_mqtt-Connects fourth 11 (omega arith)

connect_mqtt-fourth : connect_mqtt fourth 11 0 ≡ some (4, true)
unfolding connect_mqtt
connect_mqtt-fourth = refl

-- a start that finds everything at the fourth attempt of MQTT
abbrev settings : Config
settings = record {
  mqtt_broker = codes "tcp://localhost:1883";
  mqtt_client_id = codes "brokeroo";
  mqtt_username = codes "";
  mqtt_password = codes "";
  postgres_url = codes "postgres://db";
  topic_pattern = codes "j/data/+/+";
  kafka_broker = codes "kafka:9092";
}

defaults : (load_config (λ k. codes "")).topic_pattern ≡ codes "j/data/+/+"
unfolding load_config
defaults = refl

abbrev answers : Answers
answers = record {
  opens = true;
  pings = true;
  connects = fourth;
  kafka = fine;
  handler = with_writer;
}

stop-start_example : IsClosed (stop (start answers (new_service settings empty_bridge)).0)
stop-start_example = stop-start answers settings empty_bridge

-- ===== src/Brokeroo/Lifecycle.antt =====
-- brokeroo/cmd/brokeroo/main.go: `Start` and `Stop` of the service, with the connections that they
-- open and close in their order.
pub mod Starting
pub mod Stopping
use trackeroo.Base.{
  ◌≡◌, refl, ap, sym, ◌∙◌, Bool, true, false, not, ◌&&◌, Option, none, some, List, [], ◌∷◌, ◌++◌,
  Bytes, codes, ℕ, if◌then◌else◌, Bool-cases, Option-cases, inl, inr,
}
use trackeroo.Brokeroo.{Config, Bridge, Replies, ensure_topic_exists}
use trackeroo.Brokeroo.Connect.{connect_mqtt}

-- what the service does to the outside while it starts and stops
pub data Action : Type 0 where
  opens_db pings_db : Action
  connects_mqtt : Action
  subscribes : Bytes → Action
  makes_writer : Action
  sends_ping : Bytes → Action
  unsubscribes : Bytes → Action
  disconnects closes_db closes_writer : Action

-- The fields of the service that are nil at first, as flags, and what it did, the oldest first.
pub record Process : Type 0 where
  pub config : Config
  pub has_client : Bool
  pub is_connected : Bool
  pub has_db : Bool
  pub has_writer : Bool
  pub bridge : Bridge
  pub trace : List Action

unfoldable pub new_service : Config → Bridge → Process
new_service config bridge = record {
  config = config;
  has_client = false;
  is_connected = false;
  has_db = false;
  has_writer = false;
  bridge = record bridge { known_topics = [] };
  trace = [];
}

-- The MQTT client runs the connect handler in a goroutine of its own: it may subscribe before the
-- Kafka writer is made, before the test message is sent, or after it.
pub data Moment : Type 0 where
  at_once with_writer after_ping : Moment

-- What PostgreSQL, the MQTT broker (by attempt) and Kafka answer during `Start`, and when the connect
-- handler runs.
pub record Answers : Type 0 where
  pub opens : Bool
  pub pings : Bool
  pub connects : ℕ → Bool
  pub kafka : Replies
  pub handler : Moment

abbrev pub note : Action → Process → Process
note x p = record p { trace = p.trace ++ x ∷ [] }

-- `sql.Open`, then `Ping`
unfoldable pub connect_postgres : Answers → Process → Process × Bool
connect_postgres a p =
    let opened = note opens_db (record p { has_db = true }) in
    if a.opens then (note pings_db opened, a.pings) else (p, false)

unfoldable pub subscribe_to_topics : Process → Process
subscribe_to_topics p = note (subscribes p.config.topic_pattern) p

-- the connect handler, where this is the moment at which it runs
unfoldable pub handler_at : Moment → Moment → Process → Process
unfolding subscribe_to_topics
handler_at at_once at_once p = subscribe_to_topics p
handler_at with_writer with_writer p = subscribe_to_topics p
handler_at after_ping after_ping p = subscribe_to_topics p
handler_at _ _ p = p

unfoldable pub connected_mqtt : Moment → Option (ℕ × Bool) → Process → Process × Bool
unfolding handler_at
connected_mqtt handler none p = (p, false)
connected_mqtt handler (some (n, ok)) p =
    if ok
    then (handler_at handler at_once (note connects_mqtt (record p { is_connected = true })), true)
    else (p, false)

-- The attempts need at most 11 rounds.
unfoldable pub start_mqtt : Answers → Process → Process × Bool
unfolding connected_mqtt connect_mqtt
start_mqtt a p =
    connected_mqtt a.handler (connect_mqtt a.connects 11 0) (record p { has_client = true })

-- A failure to create the topic of the test message is only logged. The writer is asynchronous: that
-- it has taken the test message does not say that Kafka has it.
unfoldable pub connect_kafka : Answers → Process → Process × Bool
unfolding ensure_topic_exists handler_at
connect_kafka a p =
    let made = note makes_writer (record p {
      has_writer = true;
      bridge = (ensure_topic_exists a.kafka (codes "health-check") p.bridge).0;
    }) in
    let pinged = note (sends_ping (codes "health-check")) (handler_at a.handler with_writer made) in
    (handler_at a.handler after_ping pinged, a.kafka.accepts)

unfoldable pub and_then : Process × Bool → (Process → Process × Bool) → Process × Bool
and_then (p, false) next = (p, false)
and_then (p, true) next = next p

unfoldable pub start : Answers → Process → Process × Bool
unfolding connect_postgres start_mqtt connect_kafka and_then
start a p = and_then (and_then (connect_postgres a p) (start_mqtt a)) (connect_kafka a)

stop_mqtt : Process → Process
stop_mqtt p =
    if p.has_client && p.is_connected
    then note disconnects
        (note (unsubscribes p.config.topic_pattern) (record p { is_connected = false }))
    else p

stop_db : Process → Process
stop_db p = if p.has_db then note closes_db (record p { has_db = false }) else p

stop_writer : Process → Process
stop_writer p = if p.has_writer then note closes_writer (record p { has_writer = false }) else p

-- `has_db` and `has_writer` are cleared to say that the connections are closed.
unfoldable pub stop : Process → Process
unfolding stop_mqtt stop_db stop_writer
stop p = stop_writer (stop_db (stop_mqtt p))

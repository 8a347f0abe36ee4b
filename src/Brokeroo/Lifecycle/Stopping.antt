-- ===== src/Brokeroo/Lifecycle/Stopping.antt =====
-- What `Stop` of brokeroo/cmd/brokeroo/main.go leaves open.
use trackeroo.Base.{
  ◌≡◌, refl, ap, ◌∙◌, Bool, true, false, not, ◌&&◌, Option, none, some, ℕ, Bool-cases, inl, inr,
}
use trackeroo.Brokeroo.{Config, Bridge}
use trackeroo.Brokeroo.Connect.{connect_mqtt}
use trackeroo.Brokeroo.Lifecycle.{
  Moment, at_once, with_writer, after_ping, handler_at, note, connects_mqtt, Process, new_service,
  Answers, subscribe_to_topics, connected_mqtt, start_mqtt, connect_kafka, and_then, start,
  stop_mqtt, stop_db, stop_writer, stop,
}
use trackeroo.Brokeroo.Lifecycle.Starting.{with_db, db_up, db_down, rest, start_by}

-- Nothing stays open.
abbrev pub IsClosed : Process → Type 0
IsClosed p = (p.is_connected ≡ false) × (p.has_db ≡ false) × (p.has_writer ≡ false)

-- A connection comes from a client.
abbrev HasClient : Process → Type 0
HasClient p = (p.is_connected && not p.has_client) ≡ false

mqtt_closed : (p : Process) → HasClient p → (stop_mqtt p).is_connected ≡ false
unfolding stop_mqtt
mqtt_closed p h = elim (Bool-cases p.is_connected) [
  | inr f ↦ elim (Bool-cases p.has_client) [ inl e ↦ rw (e, f) refl | inr e ↦ rw (e, f) refl ]
  | inl f ↦ elim (Bool-cases p.has_client) [
    | inl e ↦ rw (e, f) refl
    | inr e ↦ absurd (let g = rw (e, f) at h in cc)
  ]
]

db_closed :
    (p : Process) → ((stop_db p).has_db ≡ false) × ((stop_db p).is_connected ≡ p.is_connected)
unfolding stop_db
db_closed p = elim (Bool-cases p.has_db) [ inl e ↦ rw e (refl, refl) | inr e ↦ rw e (refl, refl) ]

writer_closed :
    (p : Process)
    → ((stop_writer p).has_writer ≡ false)
      × ((stop_writer p).is_connected ≡ p.is_connected)
      × ((stop_writer p).has_db ≡ p.has_db)
unfolding stop_writer
writer_closed p = elim (Bool-cases p.has_writer) [
  | inl e ↦ rw e (refl, refl, refl)
  | inr e ↦ rw e (refl, refl, refl)
]

stop-IsClosed : (p : Process) → HasClient p → IsClosed (stop p)
unfolding stop
stop-IsClosed p h =
    let db = db_closed (stop_mqtt p) in
    let writer = writer_closed (stop_db (stop_mqtt p)) in
    (writer.1 ∙ db.1 ∙ mqtt_closed p h, writer.2 ∙ db.0, writer.0)

both_false : (b c : Bool) → c ≡ true → (b && not c) ≡ false
both_false true c e = rw e refl
both_false false c e = refl

-- the connect handler changes no connection
handler_at-HasClient : (m n : Moment) (p : Process) → HasClient p → HasClient (handler_at m n p)
unfolding handler_at subscribe_to_topics
handler_at-HasClient at_once at_once p h = h
handler_at-HasClient at_once with_writer p h = h
handler_at-HasClient at_once after_ping p h = h
handler_at-HasClient with_writer at_once p h = h
handler_at-HasClient with_writer with_writer p h = h
handler_at-HasClient with_writer after_ping p h = h
handler_at-HasClient after_ping at_once p h = h
handler_at-HasClient after_ping with_writer p h = h
handler_at-HasClient after_ping after_ping p h = h

connected_mqtt-HasClient :
    (m : Moment) (o : Option (ℕ × Bool)) (p : Process)
    → p.has_client ≡ true
    → HasClient (connected_mqtt m o p).0
unfolding connected_mqtt
connected_mqtt-HasClient m none p e = both_false p.is_connected p.has_client e
connected_mqtt-HasClient m (some (n, true)) p e =
    handler_at-HasClient m at_once (note connects_mqtt (record p { is_connected = true }))
      (both_false true p.has_client e)
connected_mqtt-HasClient m (some (n, false)) p e = both_false p.is_connected p.has_client e

kafka-HasClient :
    (a : Answers) (r : Process × Bool) → HasClient r.0 → HasClient (and_then r (connect_kafka a)).0
unfolding and_then connect_kafka
kafka-HasClient a (p, false) h = h
kafka-HasClient a (p, true) h =
    handler_at-HasClient a.handler after_ping _ (handler_at-HasClient a.handler with_writer _ h)

rest-HasClient :
    (a : Answers) (c : Config) (b : Bridge) (up : Bool)
    → HasClient (rest a (with_db (new_service c b), up)).0
unfolding rest and_then with_db new_service start_mqtt
rest-HasClient a c b false = refl
rest-HasClient a c b true =
    kafka-HasClient a (connected_mqtt a.handler (connect_mqtt a.connects 11 0) _)
      (connected_mqtt-HasClient a.handler (connect_mqtt a.connects 11 0) _ refl)

start-HasClient : (a : Answers) (c : Config) (b : Bridge) → HasClient (start a (new_service c b)).0
start-HasClient a c b = elim (Bool-cases a.opens) [
  | inl e ↦
      rw (start_by a c b ∙ ap (rest a) (db_up a (new_service c b) e)) (rest-HasClient a c b a.pings)
  | inr e ↦
      rw (start_by a c b ∙ ap (rest a) (db_down a (new_service c b) e))
        (unfold rest and_then new_service in refl)
]

-- Wherever `Start` has stopped, `Stop` leaves no connection open: not to PostgreSQL, not to the MQTT
-- broker and not to Kafka.
pub stop-start :
    (a : Answers) (c : Config) (b : Bridge) → IsClosed (stop (start a (new_service c b)).0)
stop-start a c b = stop-IsClosed (start a (new_service c b)).0 (start-HasClient a c b)

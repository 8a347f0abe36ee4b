-- ===== src/Brokeroo/Lifecycle/Starting.antt =====
-- In which order `Start` of brokeroo/cmd/brokeroo/main.go connects, and where it may end.
use trackeroo.Base.{◌≡◌, refl, Bool, true, false, some, List, [], ◌∷◌, Bytes, codes, ℕ}
use trackeroo.Brokeroo.{Config, Bridge}
use trackeroo.Brokeroo.Connect.{connect_mqtt}
use trackeroo.Brokeroo.Lifecycle.{
  Action, Moment, at_once, with_writer, after_ping, connects_mqtt, opens_db, pings_db, subscribes,
  makes_writer, sends_ping, Process, new_service, Answers, note, connect_postgres, start_mqtt,
  connect_kafka, and_then, start,
}

-- what happens from the connection to the MQTT broker on, by the moment of the connect handler
abbrev pub connected_trace : Moment → Bytes → List Action
connected_trace at_once topic =
    subscribes topic ∷ makes_writer ∷ sends_ping (codes "health-check") ∷ []
connected_trace with_writer topic =
    makes_writer ∷ subscribes topic ∷ sends_ping (codes "health-check") ∷ []
connected_trace after_ping topic =
    makes_writer ∷ sends_ping (codes "health-check") ∷ subscribes topic ∷ []

-- How `Start` ends, and what it did until then.
pub data Starts (a : Answers) (config : Config) (res : Process × Bool) : Type 0 where
  no_db : a.opens ≡ false → res.1 ≡ false → res.0.trace ≡ [] → Starts a config res
  no_answer :
      a.pings ≡ false → res.1 ≡ false → res.0.trace ≡ opens_db ∷ pings_db ∷ [] → Starts a config res
  no_broker :
      ((n : ℕ) → ¬ (connect_mqtt a.connects 11 0 ≡ some (n, true)))
      → res.1 ≡ false
      → res.0.trace ≡ opens_db ∷ pings_db ∷ []
      → Starts a config res
  tried :
      (n : ℕ)
      → connect_mqtt a.connects 11 0 ≡ some (n, true)
      → res.1 ≡ a.kafka.accepts
      → res.0.trace
        ≡ opens_db ∷ pings_db ∷ connects_mqtt ∷ connected_trace a.handler config.topic_pattern
      → Starts a config res

unfoldable pub with_db : Process → Process
with_db p = note pings_db (note opens_db (record p { has_db = true }))

pub db_up :
    (a : Answers) (p : Process) → a.opens ≡ true → connect_postgres a p ≡ (with_db p, a.pings)
unfolding connect_postgres with_db
db_up a p e = rw e refl

pub db_down : (a : Answers) (p : Process) → a.opens ≡ false → connect_postgres a p ≡ (p, false)
unfolding connect_postgres
db_down a p e = rw e refl

-- the rest of `Start`, after PostgreSQL
unfoldable pub rest : Answers → Process × Bool → Process × Bool
unfolding and_then start_mqtt connect_kafka
rest a r = and_then (and_then r (start_mqtt a)) (connect_kafka a)

pub start_by :
    (a : Answers) (c : Config) (b : Bridge)
    → start a (new_service c b) ≡ rest a (connect_postgres a (new_service c b))
unfolding start rest
start_by a c b = refl

-- ===== src/Tests/Publishing.antt =====
-- The publisher on a queue with messages, and a device's post on its way to the bridge.
use trackeroo.Base.{
  inl, ◌≡◌, List, refl, true, false, none, some, [], ◌∷◌, ◌++◌, Bytes, codes, bytes_eq, lookup,
  keep, arith,
}
use trackeroo.Sqlite.{Row, Table, waiting}
use trackeroo.Backend.Http.{Request, fresh_writer}
use trackeroo.Backend.Server.{Server}
use trackeroo.Backend.Pq.{Answers, Queues, encode}
use trackeroo.Backend.Pq.Invariant.{Inv}
use trackeroo.Backend.Pq.Fifo.{healthy, waiting_rows}
use trackeroo.Backend.Publisher.{Turn, went, stuck, data_queue, publish_next, publish_payload}
use trackeroo.Backend.Publisher.Oldest.{good_turn, taken_table, put, publish_next_stuck}
use trackeroo.Backend.Publisher.Client.{run_turns}
use trackeroo.Backend.Publisher.Client.Draining.{
  Message, good_turns, published, run_turns-published,
}
use trackeroo.Backend.Publisher.Client.Acking.{sent_of}
use trackeroo.Backend.Publisher.Client.Failing.{SendsSome, run_turns-SendsSome}
use trackeroo.Brokeroo.{parse_topic}
use trackeroo.EndToEnd.{Posts, device_of, tag_of, publish_payload-parse_topic}
use trackeroo.Tests.Accounts.{server}
use trackeroo.Tests.Queue.{three_rows, three_rows-Inv}

abbrev queues : Queues
queues = (data_queue, three_rows) ∷ []

abbrev oldest : Row
oldest = record { id = 2; blob = codes "trk-1/j/b"; status = waiting }

abbrev other : Row
other = record { id = 4; blob = codes "trk-2/j/c"; status = waiting }

queues_found : lookup data_queue queues ≡ some three_rows
unfolding lookup bytes_eq
queues_found = refl

three_rows-waiting : waiting_rows three_rows ≡ oldest ∷ other ∷ []
unfolding keep
three_rows-waiting = refl

abbrev messages : List Message
unfolding encode
messages =
    record {
      row = oldest;
      dev = codes "trk-1";
      tag = codes "j";
      payload = codes "b";
      blob = refl;
      dev_plain = omega arith;
      tag_plain = omega arith;
    }
    ∷ record {
      row = other;
      dev = codes "trk-2";
      tag = codes "j";
      payload = codes "c";
      blob = refl;
      dev_plain = omega arith;
      tag_plain = omega arith;
    }
    ∷ []

run_turns-published_example :
    (after : Queues) × (t' : Table) × (run_turns 0 (good_turns messages) queues []
      ≡ went after ([] ++ published messages))
    × (lookup data_queue after ≡ some t')
    × (waiting_rows t' ≡ [])
unfolding messages
run_turns-published_example =
    run_turns-published 0 messages queues [] three_rows queues_found three_rows-Inv
      three_rows-waiting

abbrev deep : Row
deep = record { id = 4; blob = codes "trk-1/gps/fine/{}"; status = waiting }

abbrev deep_table : Table
deep_table = record { rows = deep ∷ []; seq = 4 }

deep_table-Inv : Inv deep_table
deep_table-Inv = record { ordered = (omega arith, omega arith, inl refl, tt); fits = omega arith }

abbrev deep_queues : Queues
deep_queues = (data_queue, deep_table) ∷ []

abbrev refused_turn : Turn
refused_turn = record good_turn { publishes = false }

publish_next_stuck_example :
    publish_next refused_turn 1000 queues []
    ≡ stuck (put (taken_table oldest three_rows) (put three_rows queues)) []
unfolding encode
publish_next_stuck_example =
    publish_next_stuck refused_turn 1000 queues [] three_rows oldest (other ∷ []) (codes "trk-1")
      (codes "j") (codes "b") refl refl refl queues_found three_rows-Inv three_rows-waiting refl
      (omega arith) (omega arith)

abbrev unanswered : Answers
unanswered = record healthy { begins = false }

-- DequeueData fails, then Ack, then the broker refuses
abbrev failing_turns : List Turn
failing_turns =
    record good_turn { dequeue_answers = unanswered }
    ∷ record good_turn { ack_answers = record healthy { commits = false } }
    ∷ refused_turn
    ∷ []

run_turns-SendsSome_example :
    SendsSome three_rows [] (sent_of (run_turns 1000 failing_turns queues []))
run_turns-SendsSome_example =
    run_turns-SendsSome 1000 failing_turns queues [] three_rows queues_found three_rows-Inv

abbrev query : Bytes → Bytes
query k = elim (bytes_eq k (codes "topic")) [ true ↦ codes "data" | false ↦ codes "gps" ]

abbrev post : Request
post = record {
  method = codes "POST";
  path = codes "/publish";
  header = λ k. codes "trk-01";
  query = query;
  path_value = λ k. codes "";
  form = none;
  body = some (codes "{}");
}

post-Posts : Posts post (codes "{}")
unfolding bytes_eq
post-Posts = record { topic = refl; body = refl; named = refl; tagged = refl }

abbrev no_rows : Table
no_rows = record { rows = []; seq = 4 }

no_rows-Inv : Inv no_rows
no_rows-Inv = record { ordered = tt; fits = omega arith }

abbrev idle_server : Server
idle_server = record server { queues = (data_queue, no_rows) ∷ [] }

publish_payload-parse_topic_example :
    (topic : Bytes) × (after : Queues) × (publish_next good_turn 0
        (publish_payload healthy (codes "") post (idle_server, fresh_writer)).0.0.queues
        []
      ≡ went after ([] ++ (topic, codes "{}") ∷ []))
    × (parse_topic topic ≡ some (device_of post, tag_of post))
unfolding lookup keep bytes_eq
publish_payload-parse_topic_example =
    publish_payload-parse_topic (codes "") post idle_server fresh_writer (codes "{}") no_rows 0 []
      post-Posts (omega arith) (omega arith) refl no_rows-Inv refl (omega arith)

-- ===== src/Tracky/Pq.antt =====
-- tracky/src/trackeroo/pq.go: the durable queue of the firmware. Its text is that of the backend's
-- service/pq.go but for the logger and for `EnqueueData`, which takes a value and has no device.
use trackeroo.Base.{ℕ, Option, none, some, ◌++◌, Bytes, codes, ℤ, Outcome, returned}
use trackeroo.Sqlite.{Table}
use trackeroo.Backend.Pq.{Queues, Answers, Error, Dequeued, on_queue, enqueue_tx}

-- what is written to the row: tag and JSON
unfoldable pub text_of : Bytes → Bytes → Bytes
text_of tag json = tag ++ (codes "/" ++ json)

-- `json` is what `json.Marshal` makes of the payload, and nothing where it fails.
unfoldable pub marshalled : Answers → Bytes → Option Bytes → Table → Table × Outcome (Unit {0})
unfolding text_of
marshalled db tag none t = (t, returned tt)
marshalled db tag (some json) t = enqueue_tx db (text_of tag json) t

unfoldable pub enqueue_data :
    Answers → Bytes → Bytes → Option Bytes → Queues → Queues × Outcome (Unit {0})
unfolding marshalled
enqueue_data db name tag json qs = on_queue name qs tt (marshalled db tag json)

unfoldable pub init_queue : Bytes → Option Table → Queues → Queues
init_queue name file qs = trackeroo.Backend.Pq.init_queue name file qs

unfoldable pub dequeue_data : Answers → Bytes → Queues → Queues × Outcome Dequeued
dequeue_data db name qs = trackeroo.Backend.Pq.dequeue_data db name qs

unfoldable pub set_status : Answers → Bytes → ℤ → ℕ → Queues → Queues × Outcome (Option Error)
set_status db name id status qs = trackeroo.Backend.Pq.set_status db name id status qs

unfoldable pub size : Answers → Bytes → Queues → Queues × Outcome (ℤ × Option Error)
size db name qs = trackeroo.Backend.Pq.size db name qs

unfoldable pub ack : Answers → Bytes → ℤ → Queues → Queues × Outcome (Option Error)
ack db name id qs = trackeroo.Backend.Pq.ack db name id qs

unfoldable pub unack : Answers → Bytes → ℤ → Queues → Queues × Outcome (Option Error)
unack db name id qs = trackeroo.Backend.Pq.unack db name id qs

unfoldable pub queues_clean_up : Answers → Queues → Queues
queues_clean_up db qs = trackeroo.Backend.Pq.queues_clean_up db qs

-- ===== src/EndToEnd.antt =====
-- From the request of a device (trackeroo-backend/src/internal/handler/mqtt.go), over the queue and
-- the publisher (service/pq.go, service/mqtt.go), to the bridge (brokeroo/cmd/brokeroo/main.go).
use trackeroo.Base.{
  ℕ, ◌+◌, ◌<◌, ◌≡◌, refl, ap, ◌∙◌, true, false, some, [], ◌∷◌, ◌++◌, keep, keep-append, Bytes,
  codes, bytes_eq, bytes_eq_iff, Lacks, lookup, insert, lookup-insert_self, returned, arith,
}
use trackeroo.Sqlite.{Row, Table, waiting, max_rowid, insert_row, is_waiting}
use trackeroo.Backend.Http.{Request, Writer}
use trackeroo.Backend.Server.{Server}
use trackeroo.Backend.Pq.{Queues, encode, enqueue_tx, enqueue_data}
use trackeroo.Backend.Pq.Invariant.{Inv, insert_row-Inv}
use trackeroo.Backend.Pq.Fifo.{healthy, waiting_rows}
use trackeroo.Backend.Publisher.{
  Sent, went, data_queue, stored, publish_payload, topic_of, publish_next,
}
use trackeroo.Backend.Publisher.Calls.{on_queue_found}
use trackeroo.Backend.Publisher.Oldest.{good_turn, publish_next_oldest}
use trackeroo.Backend.MqttAuth.{is_empty}
use trackeroo.Brokeroo.{parse_topic}
use trackeroo.Brokeroo.Topics.{data_topic, parse_topic_iff}

abbrev pub device_of : Request → Bytes
device_of r = r.header (codes "Username")

abbrev pub tag_of : Request → Bytes
tag_of r = r.query (codes "tag")

-- a request that `PublishPayload` accepts, with the payload that it carries
pub record Posts (r : Request) (payload : Bytes) : Type 0 where
  pub topic : r.query (codes "topic") ≡ data_queue
  pub body : r.body ≡ some payload
  pub named : is_empty (device_of r) ≡ false
  pub tagged : is_empty (tag_of r) ≡ false

enqueue_tx_stores :
    (m : Bytes) (t : Table)
    → t.seq < max_rowid
    → enqueue_tx healthy m t ≡ (insert_row m t, returned tt)
unfolding enqueue_tx
enqueue_tx_stores m t h = ground arith

enqueue_good :
    (dev tag payload : Bytes) (qs : Queues) (t : Table)
    → lookup data_queue qs ≡ some t
    → t.seq < max_rowid
    → enqueue_data healthy data_queue dev tag payload qs
      ≡ (insert data_queue (insert_row (encode dev tag payload) t) qs, returned tt)
unfolding enqueue_data
enqueue_good dev tag payload qs t e h =
    on_queue_found data_queue qs tt (enqueue_tx healthy (encode dev tag payload)) t e
    ∙ ap (λ x. (insert data_queue x.0 qs, x.1)) (enqueue_tx_stores (encode dev tag payload) t h)

data_is_data : bytes_eq data_queue data_queue ≡ true
data_is_data = (bytes_eq_iff data_queue data_queue).1 refl

accepted :
    (err : Bytes) (r : Request) (s : Server) (w : Writer) (payload : Bytes)
    → Posts r payload
    → publish_payload healthy err r (s, w)
      ≡ stored w s (enqueue_data healthy data_queue (device_of r) (tag_of r) payload s.queues)
unfolding publish_payload
accepted err r s w payload p = rw (p.topic, p.body, p.named, p.tagged, data_is_data)

-- the server and the response after the message is stored
posted :
    (err : Bytes) (r : Request) (s : Server) (w : Writer) (payload : Bytes) (t : Table)
    → Posts r payload
    → lookup data_queue s.queues ≡ some t
    → t.seq < max_rowid
    → publish_payload healthy err r (s, w)
      ≡ stored w s (
        insert data_queue (insert_row (encode (device_of r) (tag_of r) payload) t) s.queues,
        returned tt,
      )
posted err r s w payload t p l h =
    accepted err r s w payload p
    ∙ ap (stored w s) (enqueue_good (device_of r) (tag_of r) payload s.queues t l h)

stored-queues :
    (w : Writer) (s : Server) (qs : Queues) → (stored w s (qs, returned tt)).0.0.queues ≡ qs
unfolding stored
stored-queues w s qs = refl

abbrev new_row : Bytes → Table → Row
new_row m t = record { id = t.seq + 1; blob = m; status = waiting }

waiting-insert_empty :
    (m : Bytes) (t : Table) → waiting_rows t ≡ [] → waiting_rows (insert_row m t) ≡ new_row m t ∷ []
unfolding insert_row
waiting-insert_empty m t e =
    keep-append is_waiting t.rows (new_row m t ∷ []) ∙ rw e (unfold keep in refl)

topic_lem : (dev tag : Bytes) → topic_of dev tag ≡ data_topic dev tag
unfolding topic_of
topic_lem dev tag = refl

-- What a device posts with `PublishPayload` is the next message that the publisher sends, if none
-- waits before it; it is sent on a topic that the bridge reads as this device and tag, with the
-- payload unchanged. Device and tag are not empty and hold no slash, the queue's invariant holds,
-- an id is left, and no service fails.
pub publish_payload-parse_topic :
    (err : Bytes) (r : Request) (s : Server) (w : Writer) (payload : Bytes) (t : Table) (fuel : ℕ)
    (sent : Sent)
    → Posts r payload
    → Lacks b'/' (device_of r)
    → Lacks b'/' (tag_of r)
    → lookup data_queue s.queues ≡ some t
    → Inv t
    → waiting_rows t ≡ []
    → t.seq < max_rowid
    → (topic : Bytes) × (after : Queues) × (publish_next good_turn fuel
          (publish_payload healthy err r (s, w)).0.0.queues
          sent
        ≡ went after (sent ++ (topic, payload) ∷ []))
      × (parse_topic topic ≡ some (device_of r, tag_of r))
publish_payload-parse_topic err r s w payload t fuel sent p ld lt l v e h =
    let m = encode (device_of r) (tag_of r) payload in
    let qs = insert data_queue (insert_row m t) s.queues in
    let queued : (publish_payload healthy err r (s, w)).0.0.queues ≡ qs =
      ap (λ x. x.0.0.queues) (posted err r s w payload t p l h) ∙ stored-queues w s qs in
    let (after, t', run, found, rest) =
      publish_next_oldest fuel qs sent (insert_row m t) (new_row m t) [] (device_of r) (tag_of r)
        payload (lookup-insert_self data_queue (insert_row m t) s.queues) (insert_row-Inv m t h v)
        (waiting-insert_empty m t e) refl ld lt in
    (
      topic_of (device_of r) (tag_of r),
      after,
      ap (λ x. publish_next good_turn fuel x sent) queued ∙ run,
      (parse_topic_iff (topic_of (device_of r) (tag_of r)) (device_of r) (tag_of r)).1
          (topic_lem (device_of r) (tag_of r), ld, lt),
    )

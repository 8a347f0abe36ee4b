-- ===== src/Tracky/Agent/Oldest.antt =====
-- What the agent makes of a message that the firmware has put on its queue.
use trackeroo.Base.{
  ℕ, ◌≡◌, refl, ap, ◌∙◌, true, none, some, List, [], ◌∷◌, ◌++◌, Bytes, cut-append, Lacks, lookup, ℤ,
  pos, returned,
}
use trackeroo.Sqlite.{Row, Table, count_waiting}
use trackeroo.Backend.Pq.{Queues}
use trackeroo.Backend.Pq.Invariant.{Inv}
use trackeroo.Backend.Pq.Fifo.{healthy, waiting_rows, taken}
use trackeroo.Backend.Publisher.{Sent, went, acknowledged, data_queue, is_positive, retry}
use trackeroo.Backend.Publisher.Calls.{size_good, dequeue_good, ack_good}
use trackeroo.Backend.Publisher.Oldest.{
  good_turn, taken_table, acked_table, put, put_found, count_positive, take_good, waiting_after,
}
use trackeroo.Tracky.Pq.{text_of, dequeue_data, size, ack}
use trackeroo.Tracky.Agent.{topic_of, deliver, forward_text, dequeued, sized, agent_next}
use trackeroo.Brokeroo.{parse_topic}
use trackeroo.Brokeroo.Topics.{data_topic, parse_topic_iff}

module _ (fuel : ℕ) (client : Bytes) (sent : Sent) where
  sized_some :
      (qs : Queues) (n : ℤ)
      → is_positive n ≡ true
      → sized good_turn fuel client sent (qs, returned (n, none))
        ≡ dequeued good_turn fuel client sent (dequeue_data healthy data_queue qs)
  unfolding sized
  sized_some qs n e = rw e

  dequeued-taken :
      (qs : Queues) (r : Row)
      → dequeued good_turn fuel client sent (qs, returned (taken r))
        ≡ forward_text good_turn fuel client (pos r.id) r.blob qs sent
  unfolding dequeued
  dequeued-taken qs r = refl

  forward_text_lem :
      (id : ℤ) (tag json : Bytes) (qs : Queues)
      → Lacks b'/' tag
      → forward_text good_turn fuel client id (text_of tag json) qs sent
        ≡ deliver good_turn fuel client id tag json qs sent
  unfolding forward_text text_of
  forward_text_lem id tag json qs h = rw (cut-append b'/' tag json h) refl

  deliver_good :
      (tag json : Bytes) (r : Row) (t : Table) (qs : Queues)
      → lookup data_queue qs ≡ some (taken_table r t)
      → deliver good_turn fuel client (pos r.id) tag json qs sent
        ≡ went (put (acked_table r t) qs) (sent ++ (topic_of client tag, json) ∷ [])
  unfolding deliver acknowledged retry ack
  deliver_good tag json r t qs e =
      ap (acknowledged (sent ++ (topic_of client tag, json) ∷ []))
        (ack_good qs (taken_table r t) (pos r.id) e)

  next_good :
      (qs : Queues) (t : Table) (r : Row) (rest : List Row) (tag json : Bytes)
      → lookup data_queue qs ≡ some t
      → Inv t
      → waiting_rows t ≡ r ∷ rest
      → r.blob ≡ text_of tag json
      → Lacks b'/' tag
      → agent_next good_turn true fuel client qs sent
        ≡ went
            (put (acked_table r t) (put (taken_table r t) (put t qs)))
            (sent ++ (topic_of client tag, json) ∷ [])
  unfolding agent_next size dequeue_data
  next_good qs t r rest tag json l v w b h =
      ap (sized good_turn fuel client sent) (size_good qs t l)
      ∙ sized_some (put t qs) (pos (count_waiting t)) (count_positive t r rest w)
      ∙ ap (dequeued good_turn fuel client sent)
          (dequeue_good (put t qs) t r (put_found t qs) (take_good t r rest v w))
      ∙ dequeued-taken (put (taken_table r t) (put t qs)) r
      ∙ ap
          (λ x.
            forward_text good_turn fuel client (pos r.id) x (put (taken_table r t) (put t qs)) sent)
          b
      ∙ forward_text_lem (pos r.id) tag json (put (taken_table r t) (put t qs)) h
      ∙ deliver_good tag json r t (put (taken_table r t) (put t qs))
          (put_found (taken_table r t) (put t qs))

topic_lem : (client tag : Bytes) → topic_of client tag ≡ data_topic client tag
unfolding topic_of
topic_lem client tag = refl

-- The agent, connected and with nothing failing, takes the oldest message of the queue, which is a
-- tag without a slash and a JSON text; it publishes the text unchanged, once, and keeps the other
-- waiting messages. The topic is one that the bridge reads as this tracker and tag, if the name of
-- the tracker holds no slash.
pub agent_next-parse_topic :
    (fuel : ℕ) (client : Bytes) (qs : Queues) (sent : Sent) (t : Table) (r : Row) (rest : List Row)
    (tag json : Bytes)
    → lookup data_queue qs ≡ some t
    → Inv t
    → waiting_rows t ≡ r ∷ rest
    → r.blob ≡ text_of tag json
    → Lacks b'/' tag
    → Lacks b'/' client
    → (topic : Bytes) × (after : Queues) × (t' : Table) × (agent_next good_turn true fuel client qs
          sent
        ≡ went after (sent ++ (topic, json) ∷ []))
      × (parse_topic topic ≡ some (client, tag))
      × (lookup data_queue after ≡ some t')
      × (waiting_rows t' ≡ rest)
agent_next-parse_topic fuel client qs sent t r rest tag json l v w b h c = (
  topic_of client tag,
  put (acked_table r t) (put (taken_table r t) (put t qs)),
  acked_table r t,
  next_good fuel client sent qs t r rest tag json l v w b h,
  (parse_topic_iff (topic_of client tag) client tag).1 (topic_lem client tag, c, h),
  put_found (acked_table r t) (put (taken_table r t) (put t qs)),
  waiting_after t r rest v w,
)

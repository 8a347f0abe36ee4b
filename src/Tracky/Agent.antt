-- ===== src/Tracky/Agent.antt =====
-- tracky/src/trackeroo/agent.go, and `Publish` of mqtt.go: the agent publishes the firmware's queue.
-- The ends of a turn and the retry are those of the backend's publisher, whose loop is the same.
pub mod Oldest
use trackeroo.Base.{
  ℕ, Bool, true, false, not, Option, none, some, List, [], ◌∷◌, ◌++◌, Bytes, codes, cut,
  if◌then◌else◌, ℤ, Outcome, returned, panicked,
}
use trackeroo.Backend.Pq.{Queues, Dequeued, Error}
use trackeroo.Backend.Publisher.{
  Turn, End, went, stuck, crashed, Sent, data_queue, retry, acknowledged, is_positive,
}
use trackeroo.Tracky.Pq.{size, dequeue_data, ack}

-- `t.topicData + "/" + tag`, with the `topicData` of `NewTdmClient`
unfoldable pub topic_of : Bytes → Bytes → Bytes
topic_of client_id tag = (codes "j/data/" ++ client_id) ++ (codes "/" ++ tag)

unfoldable pub deliver : Turn → ℕ → Bytes → ℤ → Bytes → Bytes → Queues → Sent → End
unfolding topic_of
deliver a fuel client_id id tag payload qs sent = elim (retry fuel a.publishes) [
  | none ↦ stuck qs sent
  | some _ ↦
      acknowledged (sent ++ (topic_of client_id tag, payload) ∷ [])
        (ack a.ack_answers data_queue id qs)
]

unfoldable pub forward_text : Turn → ℕ → Bytes → ℤ → Bytes → Queues → Sent → End
unfolding deliver
forward_text a fuel client_id id str qs sent =
    let (tag, payload, found) = cut b'/' str in deliver a fuel client_id id tag payload qs sent

unfoldable pub dequeued : Turn → ℕ → Bytes → Sent → Queues × Outcome Dequeued → End
unfolding forward_text
dequeued a fuel client_id sent (qs, panicked) = crashed qs sent
dequeued a fuel client_id sent (qs, returned d) = elim d.blob [
  | none ↦ acknowledged sent (ack a.ack_answers data_queue d.id qs)
  | some str ↦ forward_text a fuel client_id d.id str qs sent
]

unfoldable pub sized : Turn → ℕ → Bytes → Sent → Queues × Outcome (ℤ × Option Error) → End
unfolding dequeued
sized a fuel client_id sent (qs, panicked) = crashed qs sent
sized a fuel client_id sent (qs, returned (n, e)) =
    if is_positive n
    then dequeued a fuel client_id sent (dequeue_data a.dequeue_answers data_queue qs)
    else went qs sent

-- One turn of the loop of `run`; without a connection it only waits.
unfoldable pub agent_next : Turn → Bool → ℕ → Bytes → Queues → Sent → End
unfolding sized
agent_next a connected fuel client_id qs sent =
    if not connected
    then went qs sent
    else sized a fuel client_id sent (size a.size_answers data_queue qs)

-- ===== src/Backend/Publisher.antt =====
-- trackeroo-backend/src/internal/handler/mqtt.go and service/mqtt.go: what a device posts is put
-- on the queue `data`, and a loop publishes the queue to the broker. `sent` is what the broker took.
pub mod Calls
pub mod Oldest
pub mod Tags
pub mod Client
use trackeroo.Base.{
  ℕ, zero, suc, Bool, true, false, not, Option, none, some, List, [], ◌∷◌, ◌++◌, Bytes, codes,
  bytes_eq, cut, ltb, if◌then◌else◌, ℤ, pos, negsuc, Outcome, returned, panicked,
}
use trackeroo.Backend.Http.{
  Handler, Request, Writer, write, write_header, set_header, json_error, json_details, content_type,
  application_json,
}
use trackeroo.Backend.MqttAuth.{is_empty}
use trackeroo.Backend.Server.{Server}
use trackeroo.Backend.Pq.{Answers, Queues, Dequeued, Error, enqueue_data, dequeue_data, size, ack}

abbrev pub Sent : Type 0
Sent = List (Bytes × Bytes)

abbrev pub data_queue : Bytes
data_queue = codes "data"

-- The header is set after the status is written, as in the source.
unfoldable pub reject : ℕ → Bytes → Writer → Writer
reject status msg w =
    write (json_error msg) (set_header content_type application_json (write_header status w))

unfoldable pub stored :
    Writer → Server → Queues × Outcome (Unit {0}) → (Server × Writer) × Outcome (Unit {0})
stored w s (qs, panicked) = ((record s { queues = qs }, w), panicked)
stored w s (qs, returned _) = (
  (
    record s { queues = qs },
    write (json_details (codes "ok!")) (set_header content_type application_json w),
  ),
  returned tt,
)

-- `read_error` is the text of the error where the body cannot be read.
unfoldable pub publish_payload : Answers → Bytes → Handler Server
unfolding reject stored
publish_payload db read_error r (s, w) =
    let username = r.header (codes "Username") in
    let tag = r.query (codes "tag") in
    if is_empty username
    then ((s, reject 400 (codes "Please use a valid username") w), returned tt)
    else (if not (bytes_eq (r.query (codes "topic")) data_queue)
        then ((s, reject 400 (codes "Topic not allowed") w), returned tt)
        else (if is_empty tag
            then ((s, reject 400 (codes "Tag cannot be empty") w), returned tt)
            else elim r.body [
              | none ↦
                  ((s, reject 500 (codes "Cannot read payload: " ++ read_error) w), returned tt)
              | some payload ↦ stored w s (enqueue_data db data_queue username tag payload s.queues)
            ]))

-- What the queue's database answers in one turn of the loop, and whether the broker takes the message.
pub record Turn : Type 0 where
  pub size_answers : Answers
  pub dequeue_answers : Answers
  pub ack_answers : Answers
  pub publishes : Bool

-- How a turn ends; `stuck` is a retry that is out of fuel.
pub data End : Type 0 where
  went : Queues → Sent → End
  stuck : Queues → Sent → End
  crashed : Queues → Sent → End

-- `for err := t.Publish(…); err != nil; { … }`: the flag says whether the one call succeeded.
unfoldable pub retry : ℕ → Bool → Option (Unit {0})
retry fuel true = some tt
retry zero false = none
retry (suc fuel) false = retry fuel false

unfoldable pub topic_of : Bytes → Bytes → Bytes
topic_of dev_id tag = codes "j/data/" ++ (dev_id ++ (codes "/" ++ tag))

unfoldable pub acknowledged : Sent → Queues × Outcome (Option Error) → End
acknowledged sent (qs, panicked) = crashed qs sent
acknowledged sent (qs, returned _) = went qs sent

-- after the text is taken apart
unfoldable pub deliver : Turn → ℕ → ℤ → Bytes → Bytes → Bytes → Queues → Sent → End
unfolding retry topic_of acknowledged
deliver a fuel id dev_id tag payload qs sent = elim (retry fuel a.publishes) [
  | none ↦ stuck qs sent
  | some _ ↦
      acknowledged (sent ++ (topic_of dev_id tag, payload) ∷ [])
        (ack a.ack_answers data_queue id qs)
]

unfoldable pub forward_text : Turn → ℕ → ℤ → Bytes → Queues → Sent → End
unfolding deliver
forward_text a fuel id str qs sent =
    let (dev_id, tag_payload, found) = cut b'/' str in
    let (tag, payload, found') = cut b'/' tag_payload in
    deliver a fuel id dev_id tag payload qs sent

unfoldable pub dequeued : Turn → ℕ → Sent → Queues × Outcome Dequeued → End
unfolding forward_text acknowledged
dequeued a fuel sent (qs, panicked) = crashed qs sent
dequeued a fuel sent (qs, returned d) = elim d.blob [
  | none ↦ acknowledged sent (ack a.ack_answers data_queue d.id qs)
  | some str ↦ forward_text a fuel d.id str qs sent
]

unfoldable pub is_positive : ℤ → Bool
is_positive (pos n) = ltb 0 n
is_positive (negsuc n) = false

unfoldable pub sized : Turn → ℕ → Sent → Queues × Outcome (ℤ × Option Error) → End
unfolding dequeued is_positive
sized a fuel sent (qs, panicked) = crashed qs sent
sized a fuel sent (qs, returned (n, e)) =
    if is_positive n
    then dequeued a fuel sent (dequeue_data a.dequeue_answers data_queue qs)
    else went qs sent

-- One turn of the loop of `run`, once the client is connected.
unfoldable pub publish_next : Turn → ℕ → Queues → Sent → End
unfolding sized
publish_next a fuel qs sent = sized a fuel sent (size a.size_answers data_queue qs)

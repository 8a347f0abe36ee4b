-- ===== src/Brokeroo/Kafka.antt =====
-- The cache of known topics against the topics of the broker, over a sequence of messages.
use trackeroo.Base.{
  ◌≡◌, refl, ap, ◌⊎◌, inl, inr, Bool, true, false, ◌&&◌, Option, none, some, List, [], ◌∷◌, arith,
  Bytes, Dict, lookup, insert, lookup-insert, bytes_eq_iff, Bool-cases, Option-cases, ℤ,
}
use trackeroo.Brokeroo.Delivery.{handler_bad_topic, handler_decoded}
use trackeroo.Brokeroo.{
  Any, Codec, Envelope, envelope, DataRow, Bridge, Replies, Creation, created, already_exists,
  refused, sanitize_topic, insert_data, is_known, create_topic, ensure_topic_exists, parse_topic,
  timestamp, forward, publish, store, decoded, message_handler,
}

abbrev pub Exists : Bytes → List Bytes → Type 0
Exists t [] = ⊥
Exists t (x ∷ xs) = (x ≡ t) ⊎ Exists t xs

-- Every topic that the service takes for known is one of the broker's.
abbrev pub KnownExist : Bridge → Type 0
KnownExist b = (t : Bytes) → is_known t b ≡ true → Exists t b.kafka_topics

-- The broker says that a topic exists already only if it does.
abbrev pub IsHonest : Replies → Bytes → Bridge → Type 0
IsHonest a topic b = a.creates ≡ already_exists → Exists (sanitize_topic topic) b.kafka_topics

is_known-insert :
    (topic t : Bytes) (b b' : Bridge)
    → b'.known_topics ≡ insert topic true b.known_topics
    → is_known t b' ≡ true
    → (topic ≡ t) ⊎ (is_known t b ≡ true)
unfolding is_known
is_known-insert topic t b b' e h =
    ground (arith, ap (lookup t) e, lookup-insert topic t true b.known_topics, bytes_eq_iff topic t)

create-KnownExist :
    (k : Creation) (topic : Bytes) (b : Bridge)
    → (k ≡ already_exists → Exists topic b.kafka_topics)
    → KnownExist b
    → KnownExist (create_topic k topic b).0
unfolding create_topic
create-KnownExist refused topic b h v t e = v t e
create-KnownExist created topic b h v t e = elim (is_known-insert topic t b _ refl e) [
  | inl same ↦ inl same
  | inr old ↦ inr (v t old)
]
create-KnownExist already_exists topic b h v t e = elim (is_known-insert topic t b _ refl e) [
  | inl same ↦ rw (← same) (h refl)
  | inr old ↦ v t old
]

ensure_known :
    (a : Replies) (topic : Bytes) (b : Bridge)
    → is_known topic b ≡ true
    → ensure_topic_exists a topic b ≡ (b, true)
unfolding ensure_topic_exists
ensure_known a topic b e = ground arith

ensure_new :
    (a : Replies) (topic : Bytes) (b : Bridge)
    → is_known topic b ≡ false
    → (ensure_topic_exists a topic b ≡ create_topic a.creates topic b)
      ⊎ (ensure_topic_exists a topic b ≡ (b, false))
unfolding ensure_topic_exists
ensure_new a topic b e = ground arith

ensure-KnownExist :
    (a : Replies) (topic : Bytes) (b : Bridge)
    → (a.creates ≡ already_exists → Exists topic b.kafka_topics)
    → KnownExist b
    → KnownExist (ensure_topic_exists a topic b).0
ensure-KnownExist a topic b h v = elim (Bool-cases (is_known topic b)) [
  | inl k ↦ rw (ensure_known a topic b k) v
  | inr k ↦ elim (ensure_new a topic b k) [
    | inl e ↦ rw e (create-KnownExist a.creates topic b h v)
    | inr e ↦ rw e v
  ]
]

forward-topics :
    (a : Replies) (topic : Bytes) (e : Envelope) (m : Bridge × Bool)
    → ((forward a topic e m).0.known_topics ≡ m.0.known_topics)
      × ((forward a topic e m).0.kafka_topics ≡ m.0.kafka_topics)
unfolding forward
forward-topics a topic e (b, false) = (refl, refl)
forward-topics a topic e (b, true) = elim (Bool-cases (a.marshals && a.accepts)) [
  | inl w ↦ rw w (refl, refl)
  | inr w ↦ rw w (refl, refl)
]

same-KnownExist :
    (b b' : Bridge)
    → b'.known_topics ≡ b.known_topics
    → b'.kafka_topics ≡ b.kafka_topics
    → KnownExist b
    → KnownExist b'
unfolding is_known
same-KnownExist b b' e f v t k = rw f (v t (rw e at k))

publish-KnownExist :
    (a : Replies) (topic : Bytes) (e : Envelope) (m : Bridge × Bool)
    → IsHonest a topic m.0
    → KnownExist m.0
    → KnownExist (publish a topic e m).0
unfolding publish
publish-KnownExist a topic e (b, false) h v = v
publish-KnownExist a topic e (b, true) h v =
    let sent = ensure_topic_exists a (sanitize_topic topic) b in
    let (known, topics) = forward-topics a (sanitize_topic topic) e sent in
    same-KnownExist sent.0 (forward a (sanitize_topic topic) e sent).0 known topics
      (ensure-KnownExist a (sanitize_topic topic) b h v)

insert_data-topics :
    (a : Replies) (r : DataRow) (b : Bridge)
    → ((insert_data a r b).0.known_topics ≡ b.known_topics)
      × ((insert_data a r b).0.kafka_topics ≡ b.kafka_topics)
unfolding insert_data
insert_data-topics a r b = elim (Bool-cases a.inserts) [
  | inl i ↦ rw i (refl, refl)
  | inr i ↦ rw i (refl, refl)
]

decoded-KnownExist :
    (c : Codec) (a : Replies) (now : ℤ) (topic payload : Bytes) (place : Bytes × Bytes)
    → (fields : Option (Dict Any)) (b : Bridge) → IsHonest a topic b
    → KnownExist b
    → KnownExist (decoded c a now topic payload place fields b).0
unfolding decoded store
decoded-KnownExist c a now topic payload (dev, tag) none b h v = v
decoded-KnownExist c a now topic payload (dev, tag) (some fields) b h v =
    let ts = timestamp fields now in
    let row : DataRow = record { ts_unix = ts; dev_id = dev; tag = tag; payload = payload } in
    let (known, topics) = insert_data-topics a row b in
    publish-KnownExist a topic (envelope c ts dev tag payload) (insert_data a row b)
      (λ e. rw topics (h e)) (same-KnownExist b (insert_data a row b).0 known topics v)

handler-KnownExist :
    (c : Codec) (a : Replies) (now : ℤ) (topic payload : Bytes) (b : Bridge)
    → IsHonest a topic b
    → KnownExist b
    → KnownExist (message_handler c a now topic payload b).0
handler-KnownExist c a now topic payload b h v = elim (Option-cases (parse_topic topic)) [
  | inl e ↦ rw (handler_bad_topic c a now topic payload b e) v
  | inr ((dev, tag), e) ↦
      rw (handler_decoded c a now topic payload dev tag b e)
        (decoded-KnownExist c a now topic payload (dev, tag) (c.unmarshal payload) b h v)
]

-- A message with what the other services answer during it.
pub record Arrival : Type 0 where
  pub replies : Replies
  pub now : ℤ
  pub topic : Bytes
  pub payload : Bytes

-- the bridge after a list of messages, and the honesty of the broker along it
unfoldable pub handle_all : Codec → List Arrival → Bridge → Bridge
handle_all c [] b = b
handle_all c (m ∷ ms) b = handle_all c ms (message_handler c m.replies m.now m.topic m.payload b).0

abbrev pub Honest : Codec → List Arrival → Bridge → Type 0
Honest c [] b = Unit
Honest c (m ∷ ms) b =
    IsHonest m.replies m.topic b
    × Honest c ms (message_handler c m.replies m.now m.topic m.payload b).0

-- If every topic that the bridge takes for known is a topic of the broker, and the broker says of a
-- topic that it exists only if it does, then after any list of messages, whatever else fails during
-- them, every topic that the bridge takes for known is one of the broker's.
pub handle_all-KnownExist :
    (c : Codec) (ms : List Arrival) (b : Bridge)
    → Honest c ms b
    → KnownExist b
    → KnownExist (handle_all c ms b)
unfolding handle_all
handle_all-KnownExist c [] b h v = v
handle_all-KnownExist c (m ∷ ms) b h v =
    handle_all-KnownExist c ms (message_handler c m.replies m.now m.topic m.payload b).0 h.1
      (handler-KnownExist c m.replies m.now m.topic m.payload b h.0 v)

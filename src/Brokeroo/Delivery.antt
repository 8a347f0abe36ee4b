-- ===== src/Brokeroo/Delivery.antt =====
-- When the bridge acknowledges a message, and what it has written by then.
use trackeroo.Base.{
  ◌≡◌, refl, ap, ◌∙◌, ◌⊎◌, inl, inr, Bool, true, false, ◌&&◌, none, some, List, [], ◌∷◌, ◌++◌,
  arith, Bytes, Dict, Bool-cases, Option-cases, ℤ,
}
use trackeroo.Brokeroo.{
  Any, Codec, Envelope, envelope, DataRow, Bridge, Replies, Creation, created, already_exists,
  refused, sanitize_topic, has_key, add_row, insert_data, create_topic, ensure_topic_exists,
  parse_topic, timestamp, forward, publish, store, decoded, message_handler,
}

pub create_topic-writes :
    (k : Creation) (topic : Bytes) (b : Bridge)
    → ((create_topic k topic b).0.rows ≡ b.rows)
      × ((create_topic k topic b).0.handed_over ≡ b.handed_over)
unfolding create_topic
create_topic-writes created topic b = (refl, refl)
create_topic-writes already_exists topic b = (refl, refl)
create_topic-writes refused topic b = (refl, refl)

-- making sure of a topic writes no row and no message
ensure-writes :
    (a : Replies) (topic : Bytes) (b : Bridge)
    → ((ensure_topic_exists a topic b).0.rows ≡ b.rows)
      × ((ensure_topic_exists a topic b).0.handed_over ≡ b.handed_over)
unfolding ensure_topic_exists
ensure-writes a topic b = ground (arith, create_topic-writes a.creates topic b)

abbrev pub row_of : ℤ → Bytes → Bytes → Bytes → DataRow
row_of ts dev tag payload = record { ts_unix = ts; dev_id = dev; tag = tag; payload = payload }

-- The row was added, or an older one has its timestamp and device and the table stays as it was.
abbrev pub Inserted : DataRow → List DataRow → List DataRow → Type 0
Inserted r before after =
    ((has_key r.ts_unix r.dev_id before ≡ false) × (after ≡ before ++ r ∷ []))
    ⊎ ((has_key r.ts_unix r.dev_id before ≡ true) × (after ≡ before))

add_row-Inserted : (r : DataRow) (rs : List DataRow) → Inserted r rs (add_row r rs)
unfolding add_row
add_row-Inserted r rs = elim (Bool-cases (has_key r.ts_unix r.dev_id rs)) [
  | inl e ↦ inr (e, rw e refl)
  | inr e ↦ inl (e, rw e refl)
]

-- What a call of the handler does to the bridge, and whether it acknowledges the message.
pub data Handles (c : Codec) (now : ℤ) (topic payload : Bytes) (b : Bridge) (res : Bridge × Bool)
    : Type 0 where
  discards :
      (parse_topic topic ≡ none) ⊎ (c.unmarshal payload ≡ none)
      → res ≡ (b, true)
      → Handles c now topic payload b res
  delivers :
      (dev tag : Bytes) (fields : Dict Any)
      → parse_topic topic ≡ some (dev, tag)
      → c.unmarshal payload ≡ some fields
      → res.1 ≡ true
      → Inserted (row_of (timestamp fields now) dev tag payload) b.rows res.0.rows
      → res.0.handed_over
        ≡ b.handed_over
          ++ (sanitize_topic topic, envelope c (timestamp fields now) dev tag payload) ∷ []
      → Handles c now topic payload b res
  retains : res.1 ≡ false → res.0.handed_over ≡ b.handed_over → Handles c now topic payload b res

-- the outcome of the last two stages on a bridge whose row is written
abbrev Sends : Bytes → Envelope → Bridge → Bridge × Bool → Type 0
Sends topic e b res =
    ((res.1 ≡ true)
      × (res.0.rows ≡ b.rows)
      × (res.0.handed_over ≡ b.handed_over ++ (topic, e) ∷ []))
    ⊎ ((res.1 ≡ false) × (res.0.rows ≡ b.rows) × (res.0.handed_over ≡ b.handed_over))

forward-Sends :
    (a : Replies) (topic : Bytes) (e : Envelope) (b : Bridge) (m : Bridge × Bool)
    → m.0.rows ≡ b.rows
    → m.0.handed_over ≡ b.handed_over
    → Sends topic e b (forward a topic e m)
unfolding forward
forward-Sends a topic e b (b', false) r k = inr (refl, r, k)
forward-Sends a topic e b (b', true) r k = elim (Bool-cases (a.marshals && a.accepts)) [
  | inl w ↦ rw w (inl (refl, r, ap (λ l. l ++ (topic, e) ∷ []) k))
  | inr w ↦ rw w (inr (refl, r, k))
]

publish-Sends :
    (a : Replies) (topic : Bytes) (e : Envelope) (b : Bridge)
    → Sends (sanitize_topic topic) e b (publish a topic e (b, true))
unfolding publish
publish-Sends a topic e b =
    let (r, k) = ensure-writes a (sanitize_topic topic) b in
    forward-Sends a (sanitize_topic topic) e b (ensure_topic_exists a (sanitize_topic topic) b) r k

module _ (c : Codec) (a : Replies) (now : ℤ) (topic payload : Bytes) where
  store-Handles :
      (dev tag : Bytes) (fields : Dict Any) (b : Bridge)
      → parse_topic topic ≡ some (dev, tag)
      → c.unmarshal payload ≡ some fields
      → Handles c now topic payload b (store c a now topic payload dev tag fields b)
  unfolding store insert_data publish
  store-Handles dev tag fields b p u = elim (Bool-cases a.inserts) [
    | inl i ↦
        rw i (sent (record b { rows = add_row row b.rows }) refl (add_row-Inserted row b.rows))
    | inr i ↦ rw i (retains refl refl)
  ]
    where
      row : DataRow
      row = row_of (timestamp fields now) dev tag payload

      sent :
          (b' : Bridge)
          → b'.handed_over ≡ b.handed_over
          → Inserted (row_of (timestamp fields now) dev tag payload) b.rows b'.rows
          → Handles c now topic payload b
              (publish a topic (envelope c (timestamp fields now) dev tag payload) (b', true))
      sent b' k h =
          elim (publish-Sends a topic (envelope c (timestamp fields now) dev tag payload) b') [
            | inl (done, r, m) ↦ delivers dev tag fields p u done (rw r h) (
                m
                ∙ ap
                    (λ l.
                      l
                      ++ (sanitize_topic topic, envelope c (timestamp fields now) dev tag payload)
                        ∷ [])
                    k)
            | inr (failed, r, m) ↦ retains failed (m ∙ k)
          ]

  pub handler_bad_topic :
      (b : Bridge) → parse_topic topic ≡ none → message_handler c a now topic payload b ≡ (b, true)
  unfolding message_handler
  handler_bad_topic b e = rw (e, message_handler)

  pub handler_decoded :
      (dev tag : Bytes) (b : Bridge)
      → parse_topic topic ≡ some (dev, tag)
      → message_handler c a now topic payload b
        ≡ decoded c a now topic payload (dev, tag) (c.unmarshal payload) b
  unfolding message_handler
  handler_decoded dev tag b e = rw (e, message_handler)

  decoded-Handles :
      (dev tag : Bytes) (b : Bridge)
      → parse_topic topic ≡ some (dev, tag)
      → Handles c now topic payload b
          (decoded c a now topic payload (dev, tag) (c.unmarshal payload) b)
  unfolding decoded
  decoded-Handles dev tag b p = elim (Option-cases (c.unmarshal payload)) [
    | inl e ↦ rw (e, decoded) (discards (inr e) refl)
    | inr (fields, e) ↦ rw (e, decoded) (store-Handles dev tag fields b p e)
  ]

  -- The handler acknowledges a message in two cases only: it discards one whose topic is not of the
  -- form j/data/DEVID/TAG or whose payload does not parse, and changes nothing; or the database has
  -- taken its INSERT, which adds its row or does nothing where an older row has its timestamp and
  -- device, and exactly one message, on the sanitized topic and with the payload as it came, was
  -- handed to the asynchronous Kafka writer, which may still lose it. For a message that is not
  -- acknowledged nothing was handed to the writer.
  pub message_handler-Handles :
      (b : Bridge) → Handles c now topic payload b (message_handler c a now topic payload b)
  message_handler-Handles b = elim (Option-cases (parse_topic topic)) [
    | inl e ↦ discards (inl e) (handler_bad_topic b e)
    | inr ((dev, tag), e) ↦ rw (handler_decoded dev tag b e) (decoded-Handles dev tag b e)
  ]

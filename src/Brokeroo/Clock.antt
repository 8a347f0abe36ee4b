-- ===== src/Brokeroo/Clock.antt =====
-- The timestamps that the bridge stores, and the rows that they make it drop.
use trackeroo.Base.{
  ◌≡◌, ◌≢◌, refl, ap, ◌∙◌, Bool, true, false, Option, none, some, List, arith, Bytes, codes, Dict,
  lookup, ℤ,
}
use trackeroo.Brokeroo.{
  Any, int64, float64, other, Codec, Envelope, envelope, DataRow, Bridge, Replies, Creation,
  created, already_exists, refused, sanitize_topic, has_key, add_row, insert_data, create_topic,
  ensure_topic_exists, parse_topic, timestamp, forward, publish, store, decoded, message_handler,
}
use trackeroo.Brokeroo.Delivery.{handler_decoded, create_topic-writes}

-- What encoding/json says of an `any`: a JSON number becomes a float64.
abbrev pub NumbersAreFloats : Codec → Type 0
NumbersAreFloats c =
    (p k : Bytes) (fields : Dict Any) (n : ℤ)
    → c.unmarshal p ≡ some fields
    → lookup k fields ≢ some (int64 n)

-- no answer is an error
pub record IsFine (a : Replies) : Type 0 where
  pub inserts : a.inserts ≡ true
  pub dials : a.dials ≡ true
  pub finds_controller : a.finds_controller ≡ true
  pub dials_controller : a.dials_controller ≡ true
  pub creates : a.creates ≢ refused
  pub marshals : a.marshals ≡ true
  pub accepts : a.accepts ≡ true

field_clock :
    (v : Option Any) (now : ℤ)
    → ((n : ℤ) → v ≢ some (int64 n))
    → (fields : Dict Any) → lookup (codes "ts") fields ≡ v
    → timestamp fields now ≡ now
unfolding timestamp
field_clock none now h fields e = rw (e, timestamp)
field_clock (some (int64 n)) now h fields e = absurd (h n refl)
field_clock (some (float64 f)) now h fields e = rw (e, timestamp)
field_clock (some other) now h fields e = rw (e, timestamp)

-- The field `ts` of a payload is never the timestamp.
timestamp-clock :
    (c : Codec) (payload : Bytes) (fields : Dict Any) (now : ℤ)
    → NumbersAreFloats c
    → c.unmarshal payload ≡ some fields
    → timestamp fields now ≡ now
timestamp-clock c payload fields now law e =
    field_clock (lookup (codes "ts") fields) now (λ n. law payload (codes "ts") fields n e) fields
      refl

create_topic_fine :
    (k : Creation) (topic : Bytes) (b : Bridge) → k ≢ refused → (create_topic k topic b).1 ≡ true
unfolding create_topic
create_topic_fine created topic b h = refl
create_topic_fine already_exists topic b h = refl
create_topic_fine refused topic b h = absurd (h refl)

ensure_fine :
    (a : Replies) (topic : Bytes) (b : Bridge)
    → IsFine a
    → ((ensure_topic_exists a topic b).1 ≡ true) × ((ensure_topic_exists a topic b).0.rows ≡ b.rows)
unfolding ensure_topic_exists
ensure_fine a topic b f =
    let h = f.creates in
    ground (
      arith,
      create_topic_fine a.creates topic b,
      create_topic-writes a.creates topic b,
      f.dials,
      f.finds_controller,
      f.dials_controller,
    )

forward_fine :
    (a : Replies) (topic : Bytes) (e : Envelope) (m : Bridge × Bool)
    → IsFine a
    → m.1 ≡ true
    → ((forward a topic e m).1 ≡ true) × ((forward a topic e m).0.rows ≡ m.0.rows)
unfolding forward
forward_fine a topic e (b, false) f h = cc
forward_fine a topic e (b, true) f h = rw (f.marshals, f.accepts) (refl, refl)

publish_fine :
    (a : Replies) (topic : Bytes) (e : Envelope) (b : Bridge)
    → IsFine a
    → ((publish a topic e (b, true)).1 ≡ true) × ((publish a topic e (b, true)).0.rows ≡ b.rows)
unfolding publish
publish_fine a topic e b f =
    let (ok, rows) = ensure_fine a (sanitize_topic topic) b f in
    let (done, rows') =
      forward_fine a (sanitize_topic topic) e (ensure_topic_exists a (sanitize_topic topic) b) f
        ok in
    (done, rows' ∙ rows)

-- `ON CONFLICT DO NOTHING` on a key that is there
add_row_conflict :
    (r : DataRow) (rows : List DataRow)
    → has_key r.ts_unix r.dev_id rows ≡ true
    → add_row r rows ≡ rows
unfolding add_row
add_row_conflict r rows h = rw h

insert_fine :
    (a : Replies) (r : DataRow) (b : Bridge)
    → IsFine a
    → insert_data a r b ≡ (record b { rows = add_row r b.rows }, true)
unfolding insert_data
insert_fine a r b f = rw f.inserts

abbrev pub row_of : ℤ → Bytes → Bytes → Bytes → DataRow
row_of ts dev tag payload = record { ts_unix = ts; dev_id = dev; tag = tag; payload = payload }

store_fine :
    (c : Codec) (a : Replies) (now : ℤ) (topic payload dev tag : Bytes) (fields : Dict Any)
    (b : Bridge)
    → IsFine a
    → ((store c a now topic payload dev tag fields b).1 ≡ true)
      × ((store c a now topic payload dev tag fields b).0.rows
          ≡ add_row (row_of (timestamp fields now) dev tag payload) b.rows)
unfolding store
store_fine c a now topic payload dev tag fields b f =
    rw (insert_fine a (row_of (timestamp fields now) dev tag payload) b f)
      (publish_fine a topic (envelope c (timestamp fields now) dev tag payload) _ f)

-- When no service answers with an error, a message on j/data/DEVID/TAG whose payload parses is
-- acknowledged, and its row is put under the time of the clock, whatever the payload's own field
-- `ts` says, since encoding/json never yields the integer that the handler asks for.
pub message_handler-clock :
    (c : Codec) (a : Replies) (now : ℤ) (topic payload dev tag : Bytes) (fields : Dict Any)
    (b : Bridge)
    → NumbersAreFloats c
    → IsFine a
    → parse_topic topic ≡ some (dev, tag)
    → c.unmarshal payload ≡ some fields
    → ((message_handler c a now topic payload b).1 ≡ true)
      × ((message_handler c a now topic payload b).0.rows
          ≡ add_row (row_of now dev tag payload) b.rows)
unfolding decoded
message_handler-clock c a now topic payload dev tag fields b law f p u =
    let (done, rows) = store_fine c a now topic payload dev tag fields b f in
    let clock = timestamp-clock c payload fields now law u in
    rw (handler_decoded c a now topic payload dev tag b p, u, decoded)
      (done, rows ∙ ap (λ ts. add_row (row_of ts dev tag payload) b.rows) clock)

-- A second message of a device within one second of the bridge's clock is acknowledged like every
-- other, but its row is dropped, whatever its tag and payload: the key of a row is the pair of time
-- and device.
pub message_handler_same_second :
    (c : Codec) (a : Replies) (now : ℤ) (topic payload dev tag : Bytes) (fields : Dict Any)
    (b : Bridge)
    → NumbersAreFloats c
    → IsFine a
    → parse_topic topic ≡ some (dev, tag)
    → c.unmarshal payload ≡ some fields
    → has_key now dev b.rows ≡ true
    → ((message_handler c a now topic payload b).1 ≡ true)
      × ((message_handler c a now topic payload b).0.rows ≡ b.rows)
message_handler_same_second c a now topic payload dev tag fields b law f p u h =
    let (done, rows) = message_handler-clock c a now topic payload dev tag fields b law f p u in
    (done, rows ∙ add_row_conflict (row_of now dev tag payload) b.rows h)

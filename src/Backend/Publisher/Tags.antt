-- ===== src/Backend/Publisher/Tags.antt =====
-- A tag with a slash, which handler/mqtt.go lets through, on its way through service/mqtt.go.
use trackeroo.Base.{ℕ, ◌≡◌, ap, ◌∙◌, some, List, [], ◌∷◌, ◌++◌, append_assoc, Bytes, Lacks, lookup}
use trackeroo.Sqlite.{Row, Table}
use trackeroo.Backend.Pq.{Queues, encode}
use trackeroo.Backend.Pq.Invariant.{Inv}
use trackeroo.Backend.Pq.Fifo.{waiting_rows}
use trackeroo.Backend.Publisher.{went, Sent, data_queue, topic_of, publish_next}
use trackeroo.Backend.Publisher.Oldest.{good_turn, publish_next_oldest}

-- The text of the row does not tell where the tag ends.
encode-slash :
    (dev front back payload : Bytes)
    → encode dev (front ++ b'/' ∷ back) payload ≡ encode dev front (back ++ b'/' ∷ payload)
unfolding encode
encode-slash dev front back payload =
    ap (λ x. dev ++ b'/' ∷ x) (append_assoc front (b'/' ∷ back) (b'/' ∷ payload))

-- A message whose tag holds a slash is published under the part of the tag before the first slash,
-- and the rest of the tag goes out at the front of the payload. The device holds no slash, the
-- message is the oldest of the queue, and nothing fails.
pub publish_next_slash :
    (fuel : ℕ) (qs : Queues) (sent : Sent) (t : Table) (r : Row) (rest : List Row)
    (dev front back payload : Bytes)
    → lookup data_queue qs ≡ some t
    → Inv t
    → waiting_rows t ≡ r ∷ rest
    → r.blob ≡ encode dev (front ++ b'/' ∷ back) payload
    → Lacks b'/' dev
    → Lacks b'/' front
    → (after : Queues) × (publish_next good_turn fuel qs sent
        ≡ went after (sent ++ (topic_of dev front, back ++ b'/' ∷ payload) ∷ []))
publish_next_slash fuel qs sent t r rest dev front back payload l v w b h g =
    let (after, t', run, found, waits) =
      publish_next_oldest fuel qs sent t r rest dev front (back ++ b'/' ∷ payload) l v w
        (b ∙ encode-slash dev front back payload) h g in
    (after, run)

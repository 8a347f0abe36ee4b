-- ===== src/Backend/Publisher/Client/Draining.antt =====
-- The loop of the publisher (service/mqtt.go) empties the queue in its order.
use trackeroo.Base.{
  ℕ, ◌≡◌, refl, ap, sym, ◌∙◌, some, List, [], ◌∷◌, ◌++◌, append-nil, append_assoc, Bytes, Lacks,
  lookup, pos, inl, inr,
}
use trackeroo.Sqlite.{Row, Table, in_flight, acked}
use trackeroo.Backend.Pq.{Queues, encode}
use trackeroo.Backend.Pq.Invariant.{Inv, set_row_status-Inv}
use trackeroo.Backend.Pq.Fifo.{waiting_rows}
use trackeroo.Backend.Publisher.{Turn, went, Sent, data_queue, topic_of, publish_next}
use trackeroo.Backend.Publisher.Oldest.{
  good_turn, taken_table, acked_table, put, put_found, waiting_after, publish_next-good,
}
use trackeroo.Backend.Publisher.Client.{run_after, run_turns}

-- A message of the queue, with its parts; device and tag hold no slash.
pub record Message : Type 0 where
  pub row : Row
  pub dev : Bytes
  pub tag : Bytes
  pub payload : Bytes
  pub blob : row.blob ≡ encode dev tag payload
  pub dev_plain : Lacks b'/' dev
  pub tag_plain : Lacks b'/' tag

abbrev pub rows_of : List Message → List Row
rows_of [] = []
rows_of (m ∷ ms) = Message.row m ∷ rows_of ms

-- what the broker gets of them
abbrev pub published : List Message → Sent
published [] = []
published (m ∷ ms) = (topic_of (Message.dev m) (Message.tag m), Message.payload m) ∷ published ms

-- one turn in which nothing fails for each of them
abbrev pub good_turns : List Message → List Turn
good_turns [] = []
good_turns (m ∷ ms) = good_turn ∷ good_turns ms

acked_table-Inv : (r : Row) (t : Table) → Inv t → Inv (acked_table r t)
acked_table-Inv r t v =
    set_row_status-Inv acked (pos r.id) (taken_table r t) (inr (inr refl))
      (set_row_status-Inv in_flight (pos r.id) t (inr (inl refl)) v)

turn_good :
    (fuel : ℕ) (qs : Queues) (sent : Sent) (t : Table) (m : Message) (ms : List Message)
    → lookup data_queue qs ≡ some t
    → Inv t
    → waiting_rows t ≡ rows_of (m ∷ ms)
    → publish_next good_turn fuel qs sent
      ≡ went
          (put (acked_table m.row t) (put (taken_table m.row t) (put t qs)))
          (sent ++ (topic_of m.dev m.tag, m.payload) ∷ [])
turn_good fuel qs sent t m ms l v w =
    publish_next-good fuel qs sent t m.row (rows_of ms) m.dev m.tag m.payload l v w m.blob
      m.dev_plain m.tag_plain

-- In as many turns as there are waiting messages, and without a failure, the loop publishes all of
-- them, each once, in their order, on the topic of its device and tag and with its payload; after
-- that no message waits. The devices and tags hold no slash, and the queue's invariant holds.
pub run_turns-published :
    (fuel : ℕ) (ms : List Message) (qs : Queues) (sent : Sent) (t : Table)
    → lookup data_queue qs ≡ some t
    → Inv t
    → waiting_rows t ≡ rows_of ms
    → (after : Queues) × (t' : Table) × (run_turns fuel (good_turns ms) qs sent
        ≡ went after (sent ++ published ms))
      × (lookup data_queue after ≡ some t')
      × (waiting_rows t' ≡ [])
run_turns-published fuel [] qs sent t l v w =
    (qs, t, unfold run_turns in ap (went qs) (sym (append-nil sent)), l, w)
run_turns-published fuel (m ∷ ms) qs sent t l v w =
    let t1 = acked_table m.row t in
    let qs1 = put t1 (put (taken_table m.row t) (put t qs)) in
    let sent1 = sent ++ (topic_of m.dev m.tag, m.payload) ∷ [] in
    let (after, t', run, found, empty) =
      run_turns-published fuel ms qs1 sent1 t1 (put_found t1 (put (taken_table m.row t) (put t qs)))
        (acked_table-Inv m.row t v) (waiting_after t m.row (rows_of ms) v w) in
    (
      after,
      t',
      step fuel m ms qs sent
          ∙ ap (λ e. run_after e (run_turns fuel (good_turns ms)))
              (turn_good fuel qs sent t m ms l v w)
          ∙ resumed fuel ms qs1 sent1
          ∙ run
          ∙ ap (went after)
              (append_assoc sent ((topic_of m.dev m.tag, m.payload) ∷ []) (published ms)),
      found,
      empty,
    )
  where
    step :
        (fuel : ℕ) (m : Message) (ms : List Message) (qs : Queues) (sent : Sent)
        → run_turns fuel (good_turns (m ∷ ms)) qs sent
          ≡ run_after (publish_next good_turn fuel qs sent) (run_turns fuel (good_turns ms))
    step fuel m ms qs sent = unfold run_turns in refl

    resumed :
        (fuel : ℕ) (ms : List Message) (qs : Queues) (sent : Sent)
        → run_after (went qs sent) (run_turns fuel (good_turns ms))
          ≡ run_turns fuel (good_turns ms) qs sent
    resumed fuel ms qs sent = unfold run_after in refl

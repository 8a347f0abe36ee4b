-- ===== src/Backend/Publisher/Client/Turning.antt =====
-- What one turn of the publisher (service/mqtt.go) does when calls of the database and the broker may fail.
use mathlib.Core.Path.{subst}
use trackeroo.Base.{
  ℕ, ◌≡◌, refl, ap, sym, ◌∙◌, ◌⊎◌, inl, inr, Option, some, List, [], ◌∷◌, ◌++◌, Bytes, cut, lookup,
  ℤ, pos, minus_one, Outcome, returned, panicked, Bool-cases, Option-cases, ◌&&◌,
}
use trackeroo.Sqlite.{Row, Table, acked}
use trackeroo.Backend.Pq.{
  Queues, Answers, Error, Dequeued, dequeue_tx, dequeue_data, set_status_tx, size_tx, size,
}
use trackeroo.Backend.Pq.Invariant.{Inv}
use trackeroo.Backend.Pq.Fifo.{
  Dequeues, nothing, oldest, refused, idle, taken, waiting_rows, dequeue_tx-Dequeues,
}
use trackeroo.Backend.Pq.Fifo
use trackeroo.Backend.Publisher.{
  Turn, End, stuck, Sent, data_queue, retry, topic_of, deliver, forward_text, dequeued, is_positive,
  sized, publish_next,
}
use trackeroo.Backend.Publisher.Calls.{on_queue_found}
use trackeroo.Backend.Publisher.Oldest.{put, put_found, taken_table}
use trackeroo.Backend.Publisher.Client.Acking.{
  queues_of, sent_of, acking, acking_queues, acking_sent, none_acked, set_status_tx-Inv, row_acked,
  taken-Inv,
}

-- the topic and the payload that a row's text is cut into
unfoldable pub message_of : Row → Bytes × Bytes
message_of r =
    let (dev, rest, found) = cut b'/' r.blob in
    let (tag, payload, found') = cut b'/' rest in (topic_of dev tag, payload)

-- What one turn may do: nothing, or it hands out the oldest message and sends it at most once.
pub data Turned (t : Table) (sent : Sent) (e : End) : Type 0 where
  kept :
      (t' : Table)
      → lookup data_queue (queues_of e) ≡ some t'
      → Inv t'
      → waiting_rows t' ≡ waiting_rows t
      → sent_of e ≡ sent
      → Turned t sent e
  handed :
      (t' : Table) (r : Row) (rest : List Row)
      → lookup data_queue (queues_of e) ≡ some t'
      → Inv t'
      → waiting_rows t ≡ r ∷ rest
      → waiting_rows t' ≡ rest
      → (sent_of e ≡ sent) ⊎ (sent_of e ≡ sent ++ message_of r ∷ [])
      → Turned t sent e

size_table : (db : Answers) (t : Table) → (size_tx db t).0 ≡ t
unfolding size_tx
size_table db t = elim (Bool-cases (db.begins && db.prepares)) [ inl b ↦ simp b | inr b ↦ simp b ]

acking_nothing-Turned :
    (db : Answers) (t : Table) (qs : Queues) (sent : Sent)
    → lookup data_queue qs ≡ some t
    → Inv t
    → Turned t sent (acking db minus_one qs sent)
acking_nothing-Turned db t qs sent l v =
    kept (set_status_tx db minus_one acked t).0 (acking_queues db minus_one t qs sent l)
      (set_status_tx-Inv db minus_one t v) (none_acked db t) (acking_sent db minus_one t qs sent l)

deliver_sends :
    (a : Turn) (fuel : ℕ) (id : ℤ) (dev tag payload : Bytes) (qs : Queues) (sent : Sent)
    → (deliver a fuel id dev tag payload qs sent ≡ stuck qs sent)
      ⊎ (deliver a fuel id dev tag payload qs sent
          ≡ acking a.ack_answers id qs (sent ++ (topic_of dev tag, payload) ∷ []))
unfolding deliver
deliver_sends a fuel id dev tag payload qs sent = elim (Option-cases (retry fuel a.publishes)) [
  | inl e ↦ inl (rw (deliver, e) refl)
  | inr (u, e) ↦ inr (rw (deliver, e) refl)
]

forward_sends :
    (a : Turn) (fuel : ℕ) (r : Row) (qs : Queues) (sent : Sent)
    → (forward_text a fuel (pos r.id) r.blob qs sent ≡ stuck qs sent)
      ⊎ (forward_text a fuel (pos r.id) r.blob qs sent
          ≡ acking a.ack_answers (pos r.id) qs (sent ++ message_of r ∷ []))
unfolding forward_text message_of
forward_sends a fuel r qs sent = deliver_sends a fuel (pos r.id) _ _ _ qs sent

-- a turn that has handed out the row
taken-Turned :
    (a : Turn) (fuel : ℕ) (t : Table) (r : Row) (rest : List Row) (qs : Queues) (sent : Sent)
    → lookup data_queue qs ≡ some (taken_table r t)
    → Inv t
    → waiting_rows t ≡ r ∷ rest
    → waiting_rows (taken_table r t) ≡ rest
    → Turned t sent (forward_text a fuel (pos r.id) r.blob qs sent)
taken-Turned a fuel t r rest qs sent l v w w' = elim (forward_sends a fuel r qs sent) [
  | inl e ↦ rw e (
      handed (taken_table r t) r rest (unfold queues_of in l) (taken-Inv t r v) w w'
        (inl (unfold sent_of in refl)))
  | inr e ↦
      let sent' = sent ++ message_of r ∷ [] in
      rw e (
        handed (set_status_tx a.ack_answers (pos r.id) acked (taken_table r t)).0 r rest
          (acking_queues a.ack_answers (pos r.id) (taken_table r t) qs sent' l)
          (set_status_tx-Inv a.ack_answers (pos r.id) (taken_table r t) (taken-Inv t r v)) w
          (row_acked a.ack_answers t r rest v w w')
          (inr (acking_sent a.ack_answers (pos r.id) (taken_table r t) qs sent' l)))
]

-- what a turn does after a call with the result `res`
abbrev ending : Turn → ℕ → Queues → Sent → Table × Outcome Dequeued → End
ending a fuel qs sent res = dequeued a fuel sent (put res.0 qs, res.1)

at_result :
    (a : Turn) (fuel : ℕ) (t : Table) (qs : Queues) (sent : Sent)
    {res res' : Table × Outcome Dequeued}
    → res ≡ res'
    → Turned t sent (ending a fuel qs sent res')
    → Turned t sent (ending a fuel qs sent res)
at_result a fuel t qs sent e x = subst (λ r. Turned t sent (ending a fuel qs sent r)) (sym e) x

dequeued-Turned :
    (a : Turn) (fuel : ℕ) (t : Table) (qs : Queues) (sent : Sent) (res : Table × Outcome Dequeued)
    → Inv t
    → Dequeues a.dequeue_answers t res
    → Turned t sent (ending a fuel qs sent res)
unfolding dequeued
dequeued-Turned a fuel t qs sent res v (nothing f e) =
    at_result a fuel t qs sent e
      (acking_nothing-Turned a.ack_answers t (put t qs) sent (put_found t qs) v)
dequeued-Turned a fuel t qs sent res v (refused er f e) =
    at_result a fuel t qs sent e
      (acking_nothing-Turned a.ack_answers t (put t qs) sent (put_found t qs) v)
dequeued-Turned a fuel t qs sent res v (Fifo.crashed f e) =
    at_result a fuel t qs sent e
      (kept t (unfold queues_of in put_found t qs) v refl (unfold sent_of in refl))
dequeued-Turned a fuel t qs sent res v (oldest r rest w w' e) = at_result a fuel t qs sent e (
    taken-Turned a fuel t r rest (put (taken_table r t) qs) sent (put_found (taken_table r t) qs) v
      w (rw e at w'))

dequeue_found :
    (db : Answers) (t : Table) (qs : Queues)
    → lookup data_queue qs ≡ some t
    → dequeue_data db data_queue qs ≡ (put (dequeue_tx db t).0 qs, (dequeue_tx db t).1)
unfolding dequeue_data
dequeue_found db t qs l = on_queue_found data_queue qs _ (dequeue_tx db) t l

sized-Turned :
    (a : Turn) (fuel : ℕ) (t : Table) (qs : Queues) (sent : Sent) (o : Outcome (ℤ × Option Error))
    → lookup data_queue qs ≡ some t
    → Inv t
    → Turned t sent (sized a fuel sent (qs, o))
unfolding sized
sized-Turned a fuel t qs sent panicked l v =
    kept t (unfold queues_of in l) v refl (unfold sent_of in refl)
sized-Turned a fuel t qs sent (returned (n, e)) l v = elim (Bool-cases (is_positive n)) [
  | inl p ↦
      rw (p, dequeue_found a.dequeue_answers t qs l)
        (dequeued-Turned a fuel t qs sent (dequeue_tx a.dequeue_answers t) v
          (dequeue_tx-Dequeues a.dequeue_answers t v))
  | inr p ↦ rw p (kept t (unfold queues_of in l) v refl (unfold sent_of in refl))
]

size_found :
    (db : Answers) (t : Table) (qs : Queues)
    → lookup data_queue qs ≡ some t
    → size db data_queue qs ≡ (put t qs, (size_tx db t).1)
unfolding size
size_found db t qs l =
    on_queue_found data_queue qs _ (size_tx db) t l
    ∙ ap (λ x. (put x qs, (size_tx db t).1)) (size_table db t)

pub publish_next-Turned :
    (a : Turn) (fuel : ℕ) (t : Table) (qs : Queues) (sent : Sent)
    → lookup data_queue qs ≡ some t
    → Inv t
    → Turned t sent (publish_next a fuel qs sent)
unfolding publish_next
publish_next-Turned a fuel t qs sent l v =
    rw (size_found a.size_answers t qs l)
      (sized-Turned a fuel t (put t qs) sent (size_tx a.size_answers t).1 (put_found t qs) v)

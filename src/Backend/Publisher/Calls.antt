-- ===== src/Backend/Publisher/Calls.antt =====
-- The calls of service/pq.go on the queue `data` when its database answers.
use trackeroo.Base.{
  ℕ, ◌<◌, ◌≡◌, refl, ap, ◌∙◌, none, some, List, [], ◌∷◌, map, keep, All, Bytes, lookup, insert, ℤ,
  pos, Outcome, returned, arith, inl, inr, Bool-cases, ◌==◌,
}
use trackeroo.Sqlite.{
  Row, Table, waiting, in_flight, acked, is_waiting, mark, set_row_status, count_waiting,
}
use trackeroo.Backend.Pq.{
  Queues, on_queue, dequeue_tx, dequeue_data, set_status_tx, set_status, size_tx, size, ack,
}
use trackeroo.Backend.Pq.Fifo.{healthy, taken}
use trackeroo.Backend.Publisher.{data_queue}

pub on_queue_found {ℓ} :
    {A : Type ℓ} (name : Bytes) (qs : Queues) (a : A) (f : Table → Table × Outcome A) (t : Table)
    → lookup name qs ≡ some t
    → on_queue name qs a f ≡ (insert name (f t).0 qs, (f t).1)
unfolding on_queue
on_queue_found name qs a f t e = rw (e, on_queue)

pub size_good :
    (qs : Queues) (t : Table)
    → lookup data_queue qs ≡ some t
    → size healthy data_queue qs ≡ (insert data_queue t qs, returned (pos (count_waiting t), none))
unfolding size size_tx
size_good qs t e = on_queue_found data_queue qs _ (size_tx healthy) t e

pub dequeue_good :
    (qs : Queues) (t : Table) (r : Row)
    → lookup data_queue qs ≡ some t
    → dequeue_tx healthy t ≡ (set_row_status in_flight (pos r.id) t, returned (taken r))
    → dequeue_data healthy data_queue qs
      ≡ (insert data_queue (set_row_status in_flight (pos r.id) t) qs, returned (taken r))
unfolding dequeue_data
dequeue_good qs t r e f =
    on_queue_found data_queue qs _ (dequeue_tx healthy) t e
    ∙ ap (λ x. (insert data_queue x.0 qs, x.1)) f

pub ack_good :
    (qs : Queues) (t : Table) (id : ℤ)
    → lookup data_queue qs ≡ some t
    → ack healthy data_queue id qs
      ≡ (insert data_queue (set_row_status acked id t) qs, returned none)
unfolding ack set_status set_status_tx
ack_good qs t id e = on_queue_found data_queue qs _ (set_status_tx healthy id acked) t e

-- Acknowledging a row that is no waiting one leaves the waiting rows.
pub keep-mark-acked :
    (n : ℕ) (rs : List Row)
    → All (λ s. n < s.id) (keep is_waiting rs)
    → keep is_waiting (map (mark acked (pos n)) rs) ≡ keep is_waiting rs
unfolding keep mark
keep-mark-acked n [] a = refl
keep-mark-acked n (x ∷ rs) a = elim (Bool-cases (x.status == waiting)) [
  | inl e ↦ let (above, rest) = rw e at a in ground (arith, keep-mark-acked n rs rest)
  | inr e ↦ ground (arith, keep-mark-acked n rs (rw e at a))
]

-- ===== src/Backend/Publisher/Oldest.antt =====
-- What one turn of the publisher does to the oldest message, with and without the broker's consent.
use mathlib.Core.List.{head?}
use trackeroo.Base.{
  ℕ, suc, zero, ◌<◌, ◌≡◌, refl, ap, ◌∙◌, true, false, none, some, List, [], ◌∷◌, ◌++◌, All, Bytes,
  cut, cut-append, Lacks, lookup, insert, lookup-insert_self, ℤ, pos, returned, arith,
}
use trackeroo.Sqlite.{Row, Table, in_flight, acked, set_row_status, count_waiting}
use trackeroo.Backend.Pq.{Queues, encode, dequeue_tx, dequeue_data, size}
use trackeroo.Backend.Pq.Invariant.{Inv}
use trackeroo.Backend.Pq.Fifo.{
  healthy, waiting_rows, taken, first_waiting-head, dequeue_tx_found, take_row_done, waiting-take,
}
use trackeroo.Backend.Pq.Order.{after_head}
use trackeroo.Backend.Publisher.Calls.{size_good, dequeue_good, ack_good, keep-mark-acked}
use trackeroo.Backend.Publisher.{
  Turn, went, stuck, Sent, data_queue, retry, topic_of, acknowledged, is_positive, deliver,
  forward_text, dequeued, sized, publish_next,
}

-- a turn in which nothing fails
abbrev pub good_turn : Turn
good_turn = record {
  size_answers = healthy;
  dequeue_answers = healthy;
  ack_answers = healthy;
  publishes = true;
}

cut_encoded :
    (dev tag payload : Bytes)
    → Lacks b'/' dev
    → cut b'/' (encode dev tag payload) ≡ (dev, tag ++ b'/' ∷ payload, true)
unfolding encode
cut_encoded dev tag payload h = cut-append b'/' dev (tag ++ b'/' ∷ payload) h

forward_encoded :
    (a : Turn) (fuel : ℕ) (id : ℤ) (dev tag payload : Bytes) (qs : Queues) (sent : Sent)
    → Lacks b'/' dev
    → Lacks b'/' tag
    → forward_text a fuel id (encode dev tag payload) qs sent
      ≡ deliver a fuel id dev tag payload qs sent
unfolding forward_text
forward_encoded a fuel id dev tag payload qs sent h g =
    rw (cut_encoded dev tag payload h, cut-append b'/' tag payload g) refl

pub take_good :
    (t : Table) (r : Row) (rest : List Row)
    → Inv t
    → waiting_rows t ≡ r ∷ rest
    → dequeue_tx healthy t ≡ (set_row_status in_flight (pos r.id) t, returned (taken r))
take_good t r rest v e =
    dequeue_tx_found healthy t r refl refl refl
      (first_waiting-head 0 t.seq t.rows v.ordered ∙ ap head? e)
    ∙ take_row_done healthy r t refl

pub waiting-ack :
    (n : ℕ) (t : Table)
    → All (λ s. n < s.id) (waiting_rows t)
    → waiting_rows (set_row_status acked (pos n) t) ≡ waiting_rows t
unfolding set_row_status
waiting-ack n t a = keep-mark-acked n t.rows a

-- the table after its oldest row is handed out, and after it is acknowledged
abbrev pub taken_table : Row → Table → Table
taken_table r t = set_row_status in_flight (pos r.id) t

abbrev pub acked_table : Row → Table → Table
acked_table r t = set_row_status acked (pos r.id) (taken_table r t)

pub waiting_after :
    (t : Table) (r : Row) (rest : List Row)
    → Inv t
    → waiting_rows t ≡ r ∷ rest
    → waiting_rows (acked_table r t) ≡ rest
waiting_after t r rest v e =
    let gone = waiting-take t r rest v e in
    let above = (after_head 0 t.seq t.rows rest r v.ordered e).1 in
    waiting-ack r.id (taken_table r t) (rw gone above) ∙ gone

abbrev pub put : Table → Queues → Queues
put t qs = insert data_queue t qs

pub put_found : (t : Table) (qs : Queues) → lookup data_queue (put t qs) ≡ some t
put_found t qs = lookup-insert_self data_queue t qs

pub count_positive :
    (t : Table) (r : Row) (rest : List Row)
    → waiting_rows t ≡ r ∷ rest
    → is_positive (pos (count_waiting t)) ≡ true
unfolding is_positive count_waiting
count_positive t r rest e = rw e (ground arith)

dequeued-taken :
    (a : Turn) (fuel : ℕ) (sent : Sent) (qs : Queues) (r : Row)
    → dequeued a fuel sent (qs, returned (taken r)) ≡ forward_text a fuel (pos r.id) r.blob qs sent
unfolding dequeued
dequeued-taken a fuel sent qs r = refl

sized_some :
    (a : Turn) (fuel : ℕ) (sent : Sent) (qs : Queues) (n : ℤ)
    → is_positive n ≡ true
    → sized a fuel sent (qs, returned (n, none))
      ≡ dequeued a fuel sent (dequeue_data a.dequeue_answers data_queue qs)
unfolding sized
sized_some a fuel sent qs n e = rw e

-- up to the call of `Publish`
publish_next-deliver :
    (a : Turn) (fuel : ℕ) (qs : Queues) (sent : Sent) (t : Table) (r : Row) (rest : List Row)
    (dev tag payload : Bytes)
    → a.size_answers ≡ healthy
    → a.dequeue_answers ≡ healthy
    → lookup data_queue qs ≡ some t
    → Inv t
    → waiting_rows t ≡ r ∷ rest
    → r.blob ≡ encode dev tag payload
    → Lacks b'/' dev
    → Lacks b'/' tag
    → publish_next a fuel qs sent
      ≡ deliver a fuel (pos r.id) dev tag payload (put (taken_table r t) (put t qs)) sent
unfolding publish_next
publish_next-deliver a fuel qs sent t r rest dev tag payload sa da l v w b h g =
    ap (λ x. sized a fuel sent (size x data_queue qs)) sa
    ∙ ap (sized a fuel sent) (size_good qs t l)
    ∙ sized_some a fuel sent (put t qs) (pos (count_waiting t)) (count_positive t r rest w)
    ∙ ap (λ x. dequeued a fuel sent (dequeue_data x data_queue (put t qs))) da
    ∙ ap (dequeued a fuel sent)
        (dequeue_good (put t qs) t r (put_found t qs) (take_good t r rest v w))
    ∙ dequeued-taken a fuel sent (put (taken_table r t) (put t qs)) r
    ∙ ap (λ x. forward_text a fuel (pos r.id) x (put (taken_table r t) (put t qs)) sent) b
    ∙ forward_encoded a fuel (pos r.id) dev tag payload (put (taken_table r t) (put t qs)) sent h g

deliver_good :
    (fuel : ℕ) (dev tag payload : Bytes) (r : Row) (t : Table) (qs : Queues) (sent : Sent)
    → lookup data_queue qs ≡ some (taken_table r t)
    → deliver good_turn fuel (pos r.id) dev tag payload qs sent
      ≡ went (put (acked_table r t) qs) (sent ++ (topic_of dev tag, payload) ∷ [])
unfolding deliver retry acknowledged
deliver_good fuel dev tag payload r t qs sent e =
    ap (acknowledged (sent ++ (topic_of dev tag, payload) ∷ []))
      (ack_good qs (taken_table r t) (pos r.id) e)

-- a turn in which nothing fails, with the queues that it leaves
pub publish_next-good :
    (fuel : ℕ) (qs : Queues) (sent : Sent) (t : Table) (r : Row) (rest : List Row)
    (dev tag payload : Bytes)
    → lookup data_queue qs ≡ some t
    → Inv t
    → waiting_rows t ≡ r ∷ rest
    → r.blob ≡ encode dev tag payload
    → Lacks b'/' dev
    → Lacks b'/' tag
    → publish_next good_turn fuel qs sent
      ≡ went
          (put (acked_table r t) (put (taken_table r t) (put t qs)))
          (sent ++ (topic_of dev tag, payload) ∷ [])
publish_next-good fuel qs sent t r rest dev tag payload l v w b h g =
    publish_next-deliver good_turn fuel qs sent t r rest dev tag payload refl refl l v w b h g
    ∙ deliver_good fuel dev tag payload r t (put (taken_table r t) (put t qs)) sent
        (put_found (taken_table r t) (put t qs))

-- The oldest message of the queue, if device and tag hold no slash, is published once, on the topic
-- j/data/DEVICE/TAG and with its payload unchanged; it is acknowledged, and the other waiting
-- messages stay. Nothing fails during the turn, and the fuel does not matter.
pub publish_next_oldest :
    (fuel : ℕ) (qs : Queues) (sent : Sent) (t : Table) (r : Row) (rest : List Row)
    (dev tag payload : Bytes)
    → lookup data_queue qs ≡ some t
    → Inv t
    → waiting_rows t ≡ r ∷ rest
    → r.blob ≡ encode dev tag payload
    → Lacks b'/' dev
    → Lacks b'/' tag
    → (after : Queues) × (t' : Table) × (publish_next good_turn fuel qs sent
        ≡ went after (sent ++ (topic_of dev tag, payload) ∷ []))
      × (lookup data_queue after ≡ some t')
      × (waiting_rows t' ≡ rest)
publish_next_oldest fuel qs sent t r rest dev tag payload l v w b h g = (
  put (acked_table r t) (put (taken_table r t) (put t qs)),
  acked_table r t,
  publish_next-good fuel qs sent t r rest dev tag payload l v w b h g,
  put_found (acked_table r t) (put (taken_table r t) (put t qs)),
  waiting_after t r rest v w,
)

pub retry_never : (fuel : ℕ) → retry fuel false ≡ none
unfolding retry
retry_never zero = refl
retry_never (suc fuel) = retry_never fuel

deliver_bad :
    (a : Turn) (fuel : ℕ) (id : ℤ) (dev tag payload : Bytes) (qs : Queues) (sent : Sent)
    → a.publishes ≡ false
    → deliver a fuel id dev tag payload qs sent ≡ stuck qs sent
unfolding deliver
deliver_bad a fuel id dev tag payload qs sent e = rw (ap (retry fuel) e ∙ retry_never fuel, deliver)

-- If the broker refuses the message once, the turn never ends, however often it goes round its
-- retry: the message is not sent, and stays handed out in the queue.
pub publish_next_stuck :
    (a : Turn) (fuel : ℕ) (qs : Queues) (sent : Sent) (t : Table) (r : Row) (rest : List Row)
    (dev tag payload : Bytes)
    → a.size_answers ≡ healthy
    → a.dequeue_answers ≡ healthy
    → a.publishes ≡ false
    → lookup data_queue qs ≡ some t
    → Inv t
    → waiting_rows t ≡ r ∷ rest
    → r.blob ≡ encode dev tag payload
    → Lacks b'/' dev
    → Lacks b'/' tag
    → publish_next a fuel qs sent ≡ stuck (put (taken_table r t) (put t qs)) sent
publish_next_stuck a fuel qs sent t r rest dev tag payload sa da p l v w b h g =
    publish_next-deliver a fuel qs sent t r rest dev tag payload sa da l v w b h g
    ∙ deliver_bad a fuel (pos r.id) dev tag payload (put (taken_table r t) (put t qs)) sent p

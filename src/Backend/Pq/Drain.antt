-- ===== src/Backend/Pq/Drain.antt =====
-- What goes into a queue comes out, in order.
use mathlib.Core.List.{head?, map-append}
use trackeroo.Base.{
  ℕ, ◌+◌, ◌≤◌, ◌<◌, ◌≡◌, refl, inl, inr, none, some, List, [], ◌∷◌, ◌++◌, map, arith, zero, suc,
  length, sym, ap, ◌∙◌, append-nil, append_assoc, Bytes, keep, keep-append, pos, Outcome, returned,
  panicked,
}
use trackeroo.Sqlite.{
  Row, Table, in_flight, max_rowid, insert_row, first_waiting, set_row_status, is_waiting,
}
use trackeroo.Backend.Pq.{Dequeued, enqueue_tx, dequeue_tx}
use trackeroo.Backend.Pq.Invariant.{Inv, insert_row-Inv, set_row_status-Inv}
use trackeroo.Backend.Pq.Fifo.{
  waiting_rows, first_waiting-head, healthy, take_row_done, waiting-take, dequeue_tx_found,
}

-- `EnqueueData` of each message in turn
pub fill : List Bytes → Table → Table
fill [] t = t
fill (m ∷ ms) t = fill ms (enqueue_tx healthy m t).0

-- The texts that `n` calls of `DequeueData` return, up to a call that returns none.
next_text : Outcome Dequeued → List Bytes → List Bytes
next_text panicked rest = []
next_text (returned d) rest = elim d.blob [ none ↦ [] | some b ↦ b ∷ rest ]

pub drain : ℕ → Table → List Bytes
drain zero t = []
drain (suc n) t = next_text (dequeue_tx healthy t).1 (drain n (dequeue_tx healthy t).0)

enqueue_tx_done :
    (m : Bytes) (t : Table)
    → t.seq < max_rowid
    → enqueue_tx healthy m t ≡ (insert_row m t, returned tt)
unfolding enqueue_tx
enqueue_tx_done m t h = ground arith

waiting-insert :
    (m : Bytes) (t : Table)
    → map (λ r. r.blob) (waiting_rows (insert_row m t))
      ≡ map (λ r. r.blob) (waiting_rows t) ++ m ∷ []
unfolding insert_row keep
waiting-insert m t = rw (keep-append is_waiting t.rows, map-append)

fill-cons :
    (m : Bytes) (ms : List Bytes) (t : Table)
    → t.seq < max_rowid
    → fill (m ∷ ms) t ≡ fill ms (insert_row m t)
unfolding fill
fill-cons m ms t h = ap (λ r. fill ms r.0) (enqueue_tx_done m t h)

fill-waiting :
    (ms : List Bytes) (t : Table)
    → t.seq + length ms ≤ max_rowid
    → map (λ r. r.blob) (waiting_rows (fill ms t)) ≡ map (λ r. r.blob) (waiting_rows t) ++ ms
fill-waiting [] t h = unfold fill in sym (append-nil _)
fill-waiting (m ∷ ms) t h = rw (fill-cons m ms t (omega arith)) (
    fill-waiting ms (insert_row m t) (unfold insert_row in omega arith)
    ∙ rw (waiting-insert m t) (append_assoc _ (m ∷ []) ms))

fill-Inv : (ms : List Bytes) (t : Table) → t.seq + length ms ≤ max_rowid → Inv t → Inv (fill ms t)
fill-Inv [] t h v = unfold fill in v
fill-Inv (m ∷ ms) t h v = rw (fill-cons m ms t (omega arith)) (
    fill-Inv ms (insert_row m t) (unfold insert_row in omega arith)
      (insert_row-Inv m t (omega arith) v))

drain_step :
    (n : ℕ) (t : Table) (r : Row)
    → first_waiting t.rows ≡ some r
    → drain (suc n) t ≡ r.blob ∷ drain n (set_row_status in_flight (pos r.id) t)
unfolding drain next_text
drain_step n t r e =
    ap (λ q. next_text q.1 (drain n q.0))
      (dequeue_tx_found healthy t r refl refl refl e ∙ take_row_done healthy r t refl)

drain-waiting :
    (rs : List Row) (t : Table)
    → Inv t
    → waiting_rows t ≡ rs
    → drain (length rs) t ≡ map (λ r. r.blob) rs
drain-waiting [] t v e = unfold drain in refl
drain-waiting (r ∷ rs) t v e =
    drain_step (length rs) t r (first_waiting-head 0 t.seq t.rows v.ordered ∙ ap head? e)
    ∙ ap (λ ts. r.blob ∷ ts)
        (drain-waiting rs (set_row_status in_flight (pos r.id) t)
          (set_row_status-Inv in_flight (pos r.id) t (inr (inl refl)) v) (waiting-take t r rs v e))

-- First in, first out: when messages are put on a queue that holds a few already, as many calls of
-- `DequeueData` return those that waited before and then the new ones, each in the order in which
-- it was put, with its text unchanged. The database answers, and ids are left for the messages.
pub drain-fill :
    (ms : List Bytes) (t : Table)
    → Inv t
    → t.seq + length ms ≤ max_rowid
    → drain (length (waiting_rows (fill ms t))) (fill ms t)
      ≡ map (λ r. r.blob) (waiting_rows t) ++ ms
drain-fill ms t v h =
    drain-waiting (waiting_rows (fill ms t)) (fill ms t) (fill-Inv ms t h v) refl
    ∙ fill-waiting ms t h

-- ===== src/Tests/Queue.antt =====
-- The durable queue on a table with a row handed out and two that wait.
use trackeroo.Base.{
  ◌+◌, ◌≡◌, refl, inl, inr, List, [], ◌∷◌, ◌++◌, map, arith, length, codes, Bytes, pos, false,
}
use trackeroo.Sqlite.{Table, waiting, in_flight, first_waiting, set_row_status, delete_acked}
use trackeroo.Backend.Pq.{Answers, encode, dequeue_tx, clean_tx, set_status_tx}
use trackeroo.Backend.Pq.Steps.{Op, enqueue, dequeue, ack, clean, restart, step, run}
use trackeroo.Backend.Pq.Invariant.{Inv, step-Inv}
use trackeroo.Backend.Pq.Fifo.{healthy, Dequeues, dequeue_tx-Dequeues, waiting_rows}
use trackeroo.Backend.Pq.Drain.{fill, drain, drain-fill}
use trackeroo.Backend.Pq.Ledger.{Holds, run-enqueue-Holds}
use trackeroo.Backend.Pq.Order.{row_id, hands_out, handed_out, Ascends, handed_out_ascending}

abbrev pub three_rows : Table
three_rows = record {
  rows =
      record { id = 1; blob = codes "trk-1/j/a"; status = in_flight }
      ∷ record { id = 2; blob = codes "trk-1/j/b"; status = waiting }
      ∷ record { id = 4; blob = codes "trk-2/j/c"; status = waiting }
      ∷ [];
  seq = 4;
}

pub three_rows-Inv : Inv three_rows
three_rows-Inv = record {
  ordered = (
    omega arith,
    omega arith,
    inr (inl refl),
    (omega arith, omega arith, inl refl, (omega arith, omega arith, inl refl, tt)),
  );
  fits = omega arith;
}

-- the disk is full at the commit
abbrev full_disk : Answers
full_disk = record healthy { commits = false }

abbrev history : List Op
history =
    dequeue healthy
    ∷ dequeue full_disk
    ∷ ack healthy (pos 2)
    ∷ clean healthy
    ∷ restart
    ∷ dequeue healthy
    ∷ dequeue healthy
    ∷ []

step-Inv_example : Inv (step (dequeue healthy) three_rows)
step-Inv_example = step-Inv (dequeue healthy) three_rows three_rows-Inv

dequeue_tx-Dequeues_example : Dequeues full_disk three_rows (dequeue_tx full_disk three_rows)
dequeue_tx-Dequeues_example = dequeue_tx-Dequeues full_disk three_rows three_rows-Inv

abbrev two_messages : List Bytes
two_messages = codes "trk-1/j/d" ∷ codes "trk-3/j/" ∷ []

drain-fill_example :
    drain (length (waiting_rows (fill two_messages three_rows))) (fill two_messages three_rows)
    ≡ map (λ r. r.blob) (waiting_rows three_rows) ++ two_messages
drain-fill_example = drain-fill two_messages three_rows three_rows-Inv (omega arith)

two_is_not_five : pos 2 ≡ pos 5 → ⊥
two_is_not_five e = ground arith

run-enqueue-Holds_example :
    Holds
      (three_rows.seq + 1)
      (encode (codes "trk-1") (codes "j") (codes "{}"))
      (run history
        (step (enqueue healthy (codes "trk-1") (codes "j") (codes "{}")) three_rows)).rows
run-enqueue-Holds_example =
    run-enqueue-Holds (codes "trk-1") (codes "j") (codes "{}") three_rows history three_rows-Inv
      (omega arith)
      (
        λ a. a,
        (λ a. a, (λ a. absurd (two_is_not_five a), (λ a. a, (λ a. a, (λ a. a, (λ a. a, tt)))))),
      )

handed_out_ascending_example : Ascends 0 (handed_out history three_rows)
handed_out_ascending_example =
    handed_out_ascending history three_rows three_rows-Inv
      (λ a. a, (λ a. a, (λ a. a, (λ a. a, (λ a. a, (λ a. a, (λ a. a, tt)))))))

handed_out-history : handed_out history three_rows ≡ 2 ∷ 4 ∷ []
unfolding handed_out hands_out row_id step dequeue_tx first_waiting set_row_status clean_tx
    delete_acked set_status_tx
handed_out-history = refl

-- ===== src/Backend/Pq/Ledger.antt =====
-- What becomes of a message over a whole history of calls, failures and restarts included.
use trackeroo.Base.{
  ℕ, ◌+◌, ◌<◌, ◌≡◌, ◌≢◌, refl, ◌⊎◌, inl, inr, List, [], ◌∷◌, ◌++◌, map, arith, Bytes, keep, All, ℤ,
  pos, negsuc, Outcome, ap, Bool-cases, ◌==◌,
}
use trackeroo.Sqlite.{
  Row, Table, waiting, in_flight, acked, max_rowid, insert_row, mark, set_row_status, delete_acked,
  is_kept,
}
use trackeroo.Backend.Pq.{
  Answers, Dequeued, encode, enqueue_tx, dequeue_tx, set_status_tx, size_tx, clean_tx,
}
use trackeroo.Backend.Pq.Invariant.{Inv, step-Inv}
use trackeroo.Backend.Pq.Fifo.{
  Dequeues, nothing, oldest, refused, crashed, dequeue_tx-Dequeues, healthy,
}
use trackeroo.Backend.Pq.Steps.{
  Op, enqueue, dequeue, ack, unack, size, clean, restart, step, run, Acks,
}

-- The table has the row `n` with this text, not acknowledged.
abbrev pub Holds : ℕ → Bytes → List Row → Type 0
Holds n b [] = ⊥
Holds n b (r ∷ rs) = ((r.id ≡ n) × (r.blob ≡ b) × (r.status ≢ acked)) ⊎ Holds n b rs

Holds-append : (n : ℕ) (b : Bytes) (rs ss : List Row) → Holds n b rs → Holds n b (rs ++ ss)
Holds-append n b [] ss h = elim h [ ]
Holds-append n b (r ∷ rs) ss (inl h) = inl h
Holds-append n b (r ∷ rs) ss (inr h) = inr (Holds-append n b rs ss h)

Holds-last :
    (n : ℕ) (b : Bytes) (rs : List Row) (r : Row)
    → r.id ≡ n
    → r.blob ≡ b
    → r.status ≢ acked
    → Holds n b (rs ++ r ∷ [])
Holds-last n b [] r i e s = inl (i, e, s)
Holds-last n b (x ∷ rs) r i e s = inr (Holds-last n b rs r i e s)

Holds-keep : (n : ℕ) (b : Bytes) (rs : List Row) → Holds n b rs → Holds n b (keep is_kept rs)
unfolding keep
Holds-keep n b [] h = h
Holds-keep n b (r ∷ rs) (inl h) = ground arith
Holds-keep n b (r ∷ rs) (inr h) = ground (arith, Holds-keep n b rs h)

abbrev IsHeld : ℕ → Bytes → Row → Type 0
IsHeld n b r = (r.id ≡ n) × (r.blob ≡ b) × (r.status ≢ acked)

IsHeld-mark :
    (n m s : ℕ) (b : Bytes) (r : Row)
    → (s ≡ acked → m ≢ n)
    → IsHeld n b r
    → IsHeld n b (mark s (pos m) r)
unfolding mark
IsHeld-mark n m s b r k h = elim (Bool-cases (s == acked)) [
  | inl e ↦ let other : m ≢ n = k (ground arith) in ground arith
  | inr e ↦ ground arith
]

-- a change of status other than an acknowledgement of the row `n` itself
Holds-mark :
    (n : ℕ) (b : Bytes) (s : ℕ) (id : ℤ) (rs : List Row)
    → (s ≡ acked → id ≢ pos n)
    → Holds n b rs
    → Holds n b (map (mark s id) rs)
Holds-mark n b s id [] k h = h
Holds-mark n b s (negsuc m) (r ∷ rs) k (inl h) = unfold mark in inl h
Holds-mark n b s (pos m) (r ∷ rs) k (inl h) = inl (IsHeld-mark n m s b r (λ e c. k e (ap pos c)) h)
Holds-mark n b s id (r ∷ rs) k (inr h) = inr (Holds-mark n b s id rs k h)

Holds-set :
    (n : ℕ) (b : Bytes) (s : ℕ) (id : ℤ) (t : Table)
    → (s ≡ acked → id ≢ pos n)
    → Holds n b t.rows
    → Holds n b (set_row_status s id t).rows
unfolding set_row_status
Holds-set n b s id t k h = Holds-mark n b s id t.rows k h

Holds-insert :
    (n : ℕ) (b blob : Bytes) (t : Table) → Holds n b t.rows → Holds n b (insert_row blob t).rows
unfolding insert_row
Holds-insert n b blob t h = Holds-append n b t.rows _ h

Holds-delete : (n : ℕ) (b : Bytes) (t : Table) → Holds n b t.rows → Holds n b (delete_acked t).rows
unfolding delete_acked
Holds-delete n b t h = Holds-keep n b t.rows h

Holds-dequeue :
    (n : ℕ) (b : Bytes) (db : Answers) (t : Table) (res : Table × Outcome Dequeued)
    → Dequeues db t res
    → Holds n b t.rows
    → Holds n b res.0.rows
Holds-dequeue n b db t res (nothing w e) h = rw e h
Holds-dequeue n b db t res (oldest r rest w w' e) h =
    rw e (Holds-set n b in_flight (pos r.id) t (λ c. absurd (omega arith)) h)
Holds-dequeue n b db t res (refused er f e) h = rw e h
Holds-dequeue n b db t res (crashed f e) h = rw e h

step-Holds :
    (n : ℕ) (b : Bytes) (o : Op) (t : Table)
    → Inv t
    → ¬ Acks n o
    → Holds n b t.rows
    → Holds n b (step o t).rows
unfolding step enqueue_tx set_status_tx size_tx clean_tx
step-Holds n b (enqueue db d g p) t v k h = ground (arith, Holds-insert n b (encode d g p) t h)
step-Holds n b (dequeue db) t v k h =
    Holds-dequeue n b db t (dequeue_tx db t) (dequeue_tx-Dequeues db t v) h
step-Holds n b (ack db id) t v k h = ground (arith, Holds-set n b acked id t (λ _. k) h)
step-Holds n b (unack db id) t v k h =
    ground (arith, Holds-set n b waiting id t (λ c. absurd (omega arith)) h)
step-Holds n b (size db) t v k h = ground arith
step-Holds n b (clean db) t v k h = ground (arith, Holds-delete n b t h)
step-Holds n b restart t v k h = h

run-Holds :
    (n : ℕ) (b : Bytes) (os : List Op) (t : Table)
    → Inv t
    → All (λ o. ¬ Acks n o) os
    → Holds n b t.rows
    → Holds n b (run os t).rows
unfolding run
run-Holds n b [] t v k h = h
run-Holds n b (o ∷ os) t v k h =
    run-Holds n b os (step o t) (step-Inv o t v) k.1 (step-Holds n b o t v k.0 h)

insert_row-Holds : (m : Bytes) (t : Table) → Holds (t.seq + 1) m (insert_row m t).rows
unfolding insert_row
insert_row-Holds m t =
    Holds-last (t.seq + 1) m t.rows (record { id = t.seq + 1; blob = m; status = waiting }) refl
      refl (λ c. absurd (omega arith))

enqueue-Holds :
    (d g p : Bytes) (t : Table)
    → t.seq < max_rowid
    → Holds (t.seq + 1) (encode d g p) (step (enqueue healthy d g p) t).rows
unfolding step enqueue_tx
enqueue-Holds d g p t h = ground (arith, insert_row-Holds (encode d g p) t)

-- No message is lost: once `EnqueueData` has put it, its row is in the table with its text, not
-- acknowledged, after every history of calls, clean-ups, failures and restarts in which no `Ack`
-- names its id. The database answered to the enqueue, and an id was left for it.
pub run-enqueue-Holds :
    (d g p : Bytes) (t : Table) (os : List Op)
    → Inv t
    → t.seq < max_rowid
    → All (λ o. ¬ Acks (t.seq + 1) o) os
    → Holds (t.seq + 1) (encode d g p) (run os (step (enqueue healthy d g p) t)).rows
run-enqueue-Holds d g p t os v h k =
    run-Holds (t.seq + 1) (encode d g p) os _ (step-Inv (enqueue healthy d g p) t v) k
      (enqueue-Holds d g p t h)

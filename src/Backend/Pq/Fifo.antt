-- ===== src/Backend/Pq/Fifo.antt =====
-- The waiting rows of a table as a first-in first-out queue.
use mathlib.Core.List.{head?}
use trackeroo.Base.{
  ℕ, ◌≤◌, ◌<◌, ◌≡◌, refl, ◌⊎◌, inl, inr, true, false, none, some, List, [], ◌∷◌, map, arith,
  minus_one, Bool-cases, ◌∙◌, if◌then◌else◌, ◌&&◌, keep, pos, Option-cases, Outcome, returned,
  panicked,
}
use trackeroo.Sqlite.{Row, Table, in_flight, first_waiting, mark, set_row_status, is_waiting}
use trackeroo.Backend.Pq.{
  Answers, Error, no_transaction, cannot_commit, cannot_update, cannot_dequeue, Dequeued, failed,
  scanned, take_row, dequeue_tx,
}
use trackeroo.Backend.Pq.Invariant.{IsOrdered, Inv}

-- the rows that wait, oldest first
abbrev pub waiting_rows : Table → List Row
waiting_rows t = keep is_waiting t.rows

pub first-above :
    (lo hi : ℕ) (rs : List Row) (r : Row)
    → IsOrdered lo hi rs
    → head? (keep is_waiting rs) ≡ some r
    → lo < r.id
unfolding keep
first-above lo hi [] r o e = cc
first-above lo hi (x ∷ rs) r o e = ground (arith, first-above x.id hi rs r o.3)

-- ORDER BY id reads the head of the waiting rows
pub first_waiting-head :
    (lo hi : ℕ) (rs : List Row) → IsOrdered lo hi rs → first_waiting rs ≡ head? (keep is_waiting rs)
unfolding first_waiting keep
first_waiting-head lo hi [] o = refl
first_waiting-head lo hi (x ∷ rs) o = elim (Option-cases (head? (keep is_waiting rs))) [
  | inl e ↦ ground (arith, first_waiting-head x.id hi rs o.3)
  | inr (r, e) ↦ ground (arith, first_waiting-head x.id hi rs o.3, first-above x.id hi rs r o.3 e)
]

pub mark-below :
    (n s lo hi : ℕ) (rs : List Row) → n ≤ lo → IsOrdered lo hi rs → map (mark s (pos n)) rs ≡ rs
unfolding mark
mark-below n s lo hi [] h o = refl
mark-below n s lo hi (x ∷ rs) h o = ground (arith, mark-below n s x.id hi rs)

pub take-head :
    (lo hi : ℕ) (rs rest : List Row) (r : Row)
    → IsOrdered lo hi rs
    → keep is_waiting rs ≡ r ∷ rest
    → keep is_waiting (map (mark in_flight (pos r.id)) rs) ≡ rest
unfolding keep mark
take-head lo hi [] rest r o e = cc
take-head lo hi (x ∷ rs) rest r o e =
    ground (arith, take-head x.id hi rs rest r o.3, mark-below x.id in_flight x.id hi rs)

abbrev pub idle : Dequeued
idle = record { id = minus_one; blob = none; error = none }

abbrev pub taken : Row → Dequeued
taken r = record { id = pos r.id; blob = some r.blob; error = none }

-- What a call of `DequeueData` may do to a table.
pub data Dequeues (db : Answers) (t : Table) (res : Table × Outcome Dequeued) : Type 0 where
  nothing :
      (db.scans ≡ false) ⊎ (waiting_rows t ≡ []) → res ≡ (t, returned idle) → Dequeues db t res
  oldest :
      (r : Row) (rest : List Row)
      → waiting_rows t ≡ r ∷ rest
      → waiting_rows res.0 ≡ rest
      → res ≡ (set_row_status in_flight (pos r.id) t, returned (taken r))
      → Dequeues db t res
  refused :
      (e : Error)
      → (db.begins && (db.prepares_update && (db.executes && db.commits))) ≡ false
      → res ≡ (t, returned (failed e))
      → Dequeues db t res
  crashed : db.prepares ≡ false → res ≡ (t, panicked) → Dequeues db t res

pub take_row_done :
    (db : Answers) (r : Row) (t : Table)
    → (db.prepares_update && (db.executes && db.commits)) ≡ true
    → take_row db r t ≡ (set_row_status in_flight (pos r.id) t, returned (taken r))
unfolding take_row
take_row_done db r t h = ground arith

abbrev refusal : Answers → Error
refusal db =
    if db.prepares_update
    then (if db.executes then cannot_commit else cannot_update)
    else cannot_dequeue

take_row_refused :
    (db : Answers) (r : Row) (t : Table)
    → (db.prepares_update && (db.executes && db.commits)) ≡ false
    → take_row db r t ≡ (t, returned (failed (refusal db)))
unfolding take_row
take_row_refused db r t h = ground arith

pub waiting-take :
    (t : Table) (r : Row) (rest : List Row)
    → Inv t
    → waiting_rows t ≡ r ∷ rest
    → waiting_rows (set_row_status in_flight (pos r.id) t) ≡ rest
unfolding set_row_status
waiting-take t r rest v e = take-head 0 t.seq t.rows rest r v.ordered e

take_row-Dequeues :
    (db : Answers) (t : Table) (r : Row) (rest : List Row)
    → Inv t
    → waiting_rows t ≡ r ∷ rest
    → Dequeues db t (take_row db r t)
take_row-Dequeues db t r rest v e =
    elim (Bool-cases (db.prepares_update && (db.executes && db.commits))) [
      | inl h ↦
          oldest r rest e (rw (take_row_done db r t h) (waiting-take t r rest v e))
            (take_row_done db r t h)
      | inr h ↦ refused (refusal db) (ground arith) (take_row_refused db r t h)
    ]

head-none : (rs : List Row) → head? rs ≡ none → rs ≡ []
head-none [] e = refl
head-none (r ∷ rs) e = cc

head-some : (rs : List Row) (r : Row) → head? rs ≡ some r → (rest : List Row) × (rs ≡ r ∷ rest)
head-some [] r e = cc
head-some (x ∷ rs) r e = (rs, cc)

pub dequeue_tx_found :
    (db : Answers) (t : Table) (r : Row)
    → db.begins ≡ true
    → db.prepares ≡ true
    → db.scans ≡ true
    → first_waiting t.rows ≡ some r
    → dequeue_tx db t ≡ take_row db r t
unfolding dequeue_tx scanned
dequeue_tx_found db t r b p s e = rw (b, p, s, e, dequeue_tx)

dequeue_tx_empty :
    (db : Answers) (t : Table)
    → db.begins ≡ true
    → db.prepares ≡ true
    → db.scans ≡ true
    → first_waiting t.rows ≡ none
    → dequeue_tx db t ≡ (t, returned idle)
unfolding dequeue_tx scanned
dequeue_tx_empty db t b p s e = rw (b, p, s, e, dequeue_tx)

found-Dequeues :
    (db : Answers) (t : Table)
    → Inv t
    → db.begins ≡ true
    → db.prepares ≡ true
    → db.scans ≡ true
    → Dequeues db t (dequeue_tx db t)
found-Dequeues db t v b p s =
    let fw = first_waiting-head 0 t.seq t.rows v.ordered in
    elim (Option-cases (head? (waiting_rows t))) [
      | inl e ↦ nothing (inr (head-none (waiting_rows t) e)) (dequeue_tx_empty db t b p s (fw ∙ e))
      | inr (r, e) ↦
          let (rest, e') = head-some (waiting_rows t) r e in
          rw (dequeue_tx_found db t r b p s (fw ∙ e)) (take_row-Dequeues db t r rest v e')
    ]

-- Whatever the database answers, `DequeueData` does one of four things: with no row waiting (or a
-- failed read) it reports none and changes nothing; it hands out the oldest waiting row, which
-- alone leaves the waiting rows; on an error of the transaction or the update it reports the
-- error and changes nothing; after a failed first `Prepare` it panics and changes nothing.
pub dequeue_tx-Dequeues : (db : Answers) (t : Table) → Inv t → Dequeues db t (dequeue_tx db t)
unfolding dequeue_tx scanned
dequeue_tx-Dequeues db t v = elim (Bool-cases db.begins) [
  | inl b ↦ elim (Bool-cases db.prepares) [
    | inl p ↦ elim (Bool-cases db.scans) [
      | inl s ↦ found-Dequeues db t v b p s
      | inr s ↦ nothing (inl s) (rw (b, p, s, dequeue_tx))
    ]
    | inr p ↦ crashed p (rw (b, p, dequeue_tx))
  ]
  | inr b ↦ refused no_transaction (ground arith) (rw (b, dequeue_tx))
]

-- the answers when nothing fails
abbrev pub healthy : Answers
healthy = record {
  begins = true;
  prepares = true;
  scans = true;
  prepares_update = true;
  executes = true;
  commits = true;
}

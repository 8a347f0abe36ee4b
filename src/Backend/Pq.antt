-- ===== src/Backend/Pq.antt =====
-- trackeroo-backend/src/internal/service/pq.go: the durable queues that the publisher drains.
-- Each function takes what the database answers to its calls, runs under the queue's lock, and
-- returns the queues after it. `tx` is nil after a failed `Begin` and `stm` after a failed
-- `Prepare`, and a call on them panics.
pub mod Steps
pub mod Invariant
pub mod Fifo
pub mod Drain
pub mod Ledger
pub mod Order
use trackeroo.Base.{
  ◌+◌, ◌^◌, ℕ, Bool, true, false, Option, none, some, List, [], ◌∷◌, ◌++◌, ltb, ◌&&◌, if◌then◌else◌,
  Bytes, Dict, lookup, insert, ℤ, pos, minus_one, Outcome, returned, panicked,
}
use trackeroo.Sqlite.{
  Row, Table, waiting, in_flight, acked, max_rowid, create_table, insert_row, first_waiting,
  set_row_status, count_waiting, delete_acked,
}

-- `queues`
abbrev pub Queues : Type 0
Queues = Dict Table

-- The answers of database/sql during one call: `true` where no error is returned.
pub record Answers : Type 0 where
  pub begins : Bool
  pub prepares : Bool
  pub scans : Bool
  pub prepares_update : Bool
  pub executes : Bool
  pub commits : Bool

pub data Error : Type 0 where
  no_queue no_transaction cannot_dequeue cannot_update cannot_commit cannot_set cannot_read : Error

-- The three results of `DequeueData`.
pub record Dequeued : Type 0 where
  pub id : ℤ
  pub blob : Option Bytes
  pub error : Option Error

abbrev slash : Bytes
slash = b'/' ∷ []

-- What is written to the row: device, tag and payload in one text.
unfoldable pub encode : Bytes → Bytes → Bytes → Bytes
encode dev_id tag payload = dev_id ++ (slash ++ (tag ++ (slash ++ payload)))

unfoldable pub enqueue_tx : Answers → Bytes → Table → Table × Outcome (Unit {0})
enqueue_tx db blob t =
    if db.begins && db.prepares
    then (if db.executes && (ltb t.seq max_rowid && db.commits)
        then (insert_row blob t, returned tt)
        else (t, returned tt))
    else (t, panicked)

abbrev pub failed : Error → Dequeued
failed e = record { id = minus_one; blob = none; error = some e }

-- The row that `QueryRow` found is set to status 1.
unfoldable pub take_row : Answers → Row → Table → Table × Outcome Dequeued
take_row db r t =
    if db.prepares_update
    then (if db.executes
        then (if db.commits
            then (
              set_row_status in_flight (pos r.id) t,
              returned (record { id = pos r.id; blob = some r.blob; error = none }),
            )
            else (t, returned (failed cannot_commit)))
        else (t, returned (failed cannot_update)))
    else (t, returned (failed cannot_dequeue))

unfoldable pub scanned : Bool → Option Row → Option Row
scanned true r = r
scanned false r = none

unfoldable pub dequeue_tx : Answers → Table → Table × Outcome Dequeued
unfolding take_row scanned
dequeue_tx db t =
    if db.begins
    then (if db.prepares
        then elim (scanned db.scans (first_waiting t.rows)) [
          | none ↦ (t, returned (record { id = minus_one; blob = none; error = none }))
          | some r ↦ take_row db r t
        ]
        else (t, panicked))
    else (t, returned (failed no_transaction))

unfoldable pub set_status_tx : Answers → ℤ → ℕ → Table → Table × Outcome (Option Error)
set_status_tx db id status t =
    if db.begins && db.prepares
    then (if db.executes
        then (if db.commits then set_row_status status id t else t, returned none)
        else (t, returned (some cannot_set)))
    else (t, panicked)

unfoldable pub size_tx : Answers → Table → Table × Outcome (ℤ × Option Error)
size_tx db t =
    if db.begins && db.prepares
    then (
      t,
      returned (if db.scans then (pos (count_waiting t), none) else (minus_one, some cannot_read)),
    )
    else (t, panicked)

-- One queue's turn in the loop of `QueuesCleanUp`; VACUUM and reopening leave the rows alone.
unfoldable pub clean_tx : Answers → Table → Table
clean_tx db t = if db.begins && (db.executes && db.commits) then delete_acked t else t

-- `p := queues[name]`, the early return where it is nil, and the write back of the table.
unfoldable pub on_queue {ℓ} :
    {A : Type ℓ} → Bytes → Queues → A → (Table → Table × Outcome A) → Queues × Outcome A
on_queue name qs missing f = elim (lookup name qs) [
  | none ↦ (qs, returned missing)
  | some t ↦ (insert name (f t).0 qs, (f t).1)
]

-- The second argument is the table that the queue's file holds, if it is there.
unfoldable pub init_queue : Bytes → Option Table → Queues → Queues
init_queue name file qs = insert name (create_table file) qs

unfoldable pub enqueue_data :
    Answers → Bytes → Bytes → Bytes → Bytes → Queues → Queues × Outcome (Unit {0})
unfolding on_queue
enqueue_data db name dev_id tag payload qs =
    on_queue name qs tt (enqueue_tx db (encode dev_id tag payload))

unfoldable pub dequeue_data : Answers → Bytes → Queues → Queues × Outcome Dequeued
unfolding on_queue
dequeue_data db name qs = on_queue name qs (failed no_queue) (dequeue_tx db)

unfoldable pub set_status : Answers → Bytes → ℤ → ℕ → Queues → Queues × Outcome (Option Error)
unfolding on_queue
set_status db name id status qs = on_queue name qs (some no_queue) (set_status_tx db id status)

unfoldable pub size : Answers → Bytes → Queues → Queues × Outcome (ℤ × Option Error)
unfolding on_queue
size db name qs = on_queue name qs (minus_one, some no_queue) (size_tx db)

unfoldable pub ack : Answers → Bytes → ℤ → Queues → Queues × Outcome (Option Error)
unfolding set_status
ack db name id = set_status db name id acked

unfoldable pub unack : Answers → Bytes → ℤ → Queues → Queues × Outcome (Option Error)
unfolding set_status
unack db name id = set_status db name id waiting

-- One pass over the map, in the order of its entries.
unfoldable pub queues_clean_up : Answers → Queues → Queues
unfolding clean_tx
queues_clean_up db [] = []
queues_clean_up db ((name, t) ∷ qs) = (name, clean_tx db t) ∷ queues_clean_up db qs

-- ===== src/Backend/Pq/Steps.antt =====
-- The life of one queue as a sequence of calls, each with what the database answers.
use trackeroo.Base.{ℕ, some, List, [], ◌∷◌, Bytes, ℤ, ◌≡◌, pos}
use trackeroo.Sqlite.{Table, waiting, acked, create_table}
use trackeroo.Backend.Pq.{Answers, encode, enqueue_tx, dequeue_tx, set_status_tx, size_tx, clean_tx}

-- `restart` is a new process: `InitQueue` finds the file of the one before.
pub data Op : Type 0 where
  enqueue : Answers → Bytes → Bytes → Bytes → Op
  dequeue : Answers → Op
  ack unack : Answers → ℤ → Op
  size : Answers → Op
  clean : Answers → Op
  restart : Op

unfoldable pub step : Op → Table → Table
unfolding create_table
step (enqueue db dev_id tag payload) t = (enqueue_tx db (encode dev_id tag payload) t).0
step (dequeue db) t = (dequeue_tx db t).0
step (ack db id) t = (set_status_tx db id acked t).0
step (unack db id) t = (set_status_tx db id waiting t).0
step (size db) t = (size_tx db t).0
step (clean db) t = clean_tx db t
step restart t = create_table (some t)

unfoldable pub run : List Op → Table → Table
unfolding step
run [] t = t
run (o ∷ os) t = run os (step o t)

-- A call that acknowledges the row `n`, or that hands it back.
abbrev pub Acks : ℕ → Op → Type 0
Acks n (ack _ id) = id ≡ pos n
Acks n _ = ⊥

abbrev pub Unacks : Op → Type 0
Unacks (unack _ _) = Unit
Unacks _ = ⊥

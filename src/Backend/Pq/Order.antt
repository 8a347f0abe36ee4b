-- ===== src/Backend/Pq/Order.antt =====
-- In which order, and how often, a queue hands out its rows over a whole history of calls.
use trackeroo.Base.{
  ℕ, ◌≤◌, ◌<◌, ◌≡◌, ◌≢◌, refl, ◌⊎◌, inl, inr, List, [], ◌∷◌, ◌++◌, map, arith, Bytes, keep,
  keep-append, All, All-append, ℤ, pos, negsuc, Outcome, returned, panicked, Bool-cases,
}
use trackeroo.Sqlite.{
  Row, Table, waiting, in_flight, acked, insert_row, mark, set_row_status, delete_acked, is_kept,
  is_waiting,
}
use trackeroo.Backend.Pq.{
  Answers, Dequeued, encode, enqueue_tx, dequeue_tx, set_status_tx, size_tx, clean_tx,
}
use trackeroo.Backend.Pq.Invariant.{Inv, IsOrdered, step-Inv, IsOrdered-weaken}
use trackeroo.Backend.Pq.Fifo.{
  Dequeues, nothing, oldest, refused, crashed, dequeue_tx-Dequeues, waiting_rows,
}
use trackeroo.Backend.Pq.Steps.{
  Op, enqueue, dequeue, ack, unack, size, clean, restart, step, Unacks,
}

-- the id that a call of `DequeueData` returns, where it returns a row
unfoldable pub row_id : Outcome Dequeued → List ℕ
row_id panicked = []
row_id (returned d) = elim d.id [ pos n ↦ n ∷ [] | negsuc _ ↦ [] ]

unfoldable pub hands_out : Op → Table → List ℕ
hands_out (dequeue db) t = row_id (dequeue_tx db t).1
hands_out _ t = []

-- the ids handed out along a history, in their order
unfoldable pub handed_out : List Op → Table → List ℕ
handed_out [] t = []
handed_out (o ∷ os) t = hands_out o t ++ handed_out os (step o t)

-- each number is above the one before it, and the first above `lo`
abbrev pub Ascends : ℕ → List ℕ → Type 0
Ascends lo [] = Unit {0}
Ascends lo (n ∷ ns) = (lo < n) × Ascends n ns

abbrev AllAbove : ℕ → List Row → Type 0
AllAbove lo rs = All (λ r. lo < r.id) (keep is_waiting rs)

record Past (lo : ℕ) (t : Table) : Type 0 where
  waits : AllAbove lo t.rows
  given : lo ≤ t.seq

IsOrdered-AllAbove : (lo hi : ℕ) (rs : List Row) → IsOrdered lo hi rs → AllAbove lo rs
unfolding keep
IsOrdered-AllAbove lo hi [] o = tt
IsOrdered-AllAbove lo hi (r ∷ rs) o = ground (
  arith,
  IsOrdered-AllAbove lo hi rs (IsOrdered-weaken {lo = r.id} {lo' = lo} hi rs (omega arith) o.3),
)

mark-AllAbove :
    (lo s : ℕ) (id : ℤ) (rs : List Row)
    → s ≢ waiting
    → AllAbove lo rs
    → AllAbove lo (map (mark s id) rs)
unfolding keep mark
mark-AllAbove lo s id [] h a = a
mark-AllAbove lo s (negsuc m) (r ∷ rs) h a = ground (arith, mark-AllAbove lo s (negsuc m) rs h)
mark-AllAbove lo s (pos m) (r ∷ rs) h a = ground (arith, mark-AllAbove lo s (pos m) rs h)

set-Past :
    (lo s : ℕ) (id : ℤ) (t : Table) → s ≢ waiting → Past lo t → Past lo (set_row_status s id t)
unfolding set_row_status
set-Past lo s id t h p = record { waits = mark-AllAbove lo s id t.rows h p.waits; given = p.given }

insert-Past : (lo : ℕ) (m : Bytes) (t : Table) → Past lo t → Past lo (insert_row m t)
unfolding insert_row keep
insert-Past lo m t p = record {
  waits = rw (keep-append is_waiting t.rows) (
      All-append (λ r. lo < r.id) (keep is_waiting t.rows) _ p.waits
        (let g = p.given in omega arith, tt));
  given = let g = p.given in omega arith;
}

delete-AllAbove : (lo : ℕ) (rs : List Row) → AllAbove lo rs → AllAbove lo (keep is_kept rs)
unfolding keep
delete-AllAbove lo [] a = a
delete-AllAbove lo (r ∷ rs) a = ground (arith, delete-AllAbove lo rs)

delete-Past : (lo : ℕ) (t : Table) → Past lo t → Past lo (delete_acked t)
unfolding delete_acked
delete-Past lo t p = record { waits = delete-AllAbove lo t.rows p.waits; given = p.given }

-- what one call does to the past: nothing handed out, or one row, above all before it
abbrev Advances : ℕ → Table → List ℕ → Type 0
Advances lo t ns = ((ns ≡ []) × Past lo t) ⊎ ((n : ℕ) × (ns ≡ n ∷ []) × (lo < n) × Past n t)

pub after_head :
    (lo hi : ℕ) (rs rest : List Row) (r : Row)
    → IsOrdered lo hi rs
    → keep is_waiting rs ≡ r ∷ rest
    → (r.id ≤ hi) × All (λ s. r.id < s.id) rest
unfolding keep
after_head lo hi [] rest r o e = cc
after_head lo hi (x ∷ rs) rest r o e = elim (Bool-cases (is_waiting x)) [
  | inl w ↦
      let same : x ≡ r = ground arith in
      let others : keep is_waiting rs ≡ rest = ground arith in
      rw (← same, ← others) (o.1, IsOrdered-AllAbove x.id hi rs o.3)
  | inr w ↦ after_head x.id hi rs rest r o.3 (ground arith)
]

taken-Past :
    (lo : ℕ) (t : Table) (r : Row) (rest : List Row)
    → Inv t
    → waiting_rows t ≡ r ∷ rest
    → waiting_rows (set_row_status in_flight (pos r.id) t) ≡ rest
    → Past r.id (set_row_status in_flight (pos r.id) t)
taken-Past lo t r rest v e e' =
    let (below, above) = after_head 0 t.seq t.rows rest r v.ordered e in
    record { waits = rw e' above; given = unfold set_row_status in below }

dequeue-Advances :
    (lo : ℕ) (db : Answers) (t : Table) (res : Table × Outcome Dequeued)
    → Inv t
    → Past lo t
    → Dequeues db t res
    → Advances lo res.0 (row_id res.1)
unfolding row_id
dequeue-Advances lo db t res v p (nothing w e) = rw e (inl (refl, p))
dequeue-Advances lo db t res v p (oldest r rest w w' e) =
    rw e (inr (r.id, refl, (rw w at p.waits).0, taken-Past lo t r rest v w (rw e at w')))
dequeue-Advances lo db t res v p (refused er f e) = rw e (inl (refl, p))
dequeue-Advances lo db t res v p (crashed f e) = rw e (inl (refl, p))

step-Advances :
    (lo : ℕ) (o : Op) (t : Table)
    → Inv t
    → ¬ Unacks o
    → Past lo t
    → Advances lo (step o t) (hands_out o t)
unfolding step hands_out enqueue_tx set_status_tx size_tx clean_tx
step-Advances lo (enqueue db d g m) t v k p =
    inl (refl, ground (arith, insert-Past lo (encode d g m) t p))
step-Advances lo (dequeue db) t v k p =
    dequeue-Advances lo db t (dequeue_tx db t) v p (dequeue_tx-Dequeues db t v)
step-Advances lo (ack db id) t v k p =
    inl (refl, ground (arith, set-Past lo acked id t (λ c. absurd (omega arith)) p))
step-Advances lo (unack db id) t v k p = absurd (k tt)
step-Advances lo (size db) t v k p = inl (refl, ground arith)
step-Advances lo (clean db) t v k p = inl (refl, ground (arith, delete-Past lo t p))
step-Advances lo restart t v k p = inl (refl, p)

handed_out-Ascends :
    (lo : ℕ) (os : List Op) (t : Table)
    → Inv t
    → All (λ o. ¬ Unacks o) os
    → Past lo t
    → Ascends lo (handed_out os t)
unfolding handed_out
handed_out-Ascends lo [] t v k p = tt
handed_out-Ascends lo (o ∷ os) t v k p = elim (step-Advances lo o t v k.0 p) [
  | inl (e, p') ↦ rw e (handed_out-Ascends lo os (step o t) (step-Inv o t v) k.1 p')
  | inr (n, e, h, p') ↦ rw e (h, handed_out-Ascends n os (step o t) (step-Inv o t v) k.1 p')
]

-- Along every history of calls without `Unack`, with whatever failures, acknowledgements,
-- clean-ups and restarts, the ids that `DequeueData` returns grow strictly: the rows come in the
-- order in which they were put, and no row is handed out twice.
pub handed_out_ascending :
    (os : List Op) (t : Table) → Inv t → All (λ o. ¬ Unacks o) os → Ascends 0 (handed_out os t)
handed_out_ascending os t v k =
    handed_out-Ascends 0 os t v k
      (record { waits = IsOrdered-AllAbove 0 t.seq t.rows v.ordered; given = omega arith })

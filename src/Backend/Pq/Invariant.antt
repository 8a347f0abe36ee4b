-- ===== src/Backend/Pq/Invariant.antt =====
-- What holds of a queue's table between two calls: the ids ascend, none is above the last id given
-- out, and a status is one of the three that the code writes.
use trackeroo.Base.{
  ℕ, ◌+◌, ◌≤◌, ◌<◌, ◌≡◌, refl, ◌⊎◌, inl, inr, List, [], ◌∷◌, ◌++◌, map, arith, keep, ℤ, pos, negsuc,
  Option-cases,
}
use trackeroo.Sqlite.{
  Row, Table, waiting, in_flight, acked, max_rowid, insert_row, first_waiting, mark, set_row_status,
  delete_acked, is_kept,
}
use trackeroo.Backend.Pq.{
  Answers, enqueue_tx, scanned, take_row, dequeue_tx, set_status_tx, size_tx, clean_tx, encode,
}
use trackeroo.Backend.Pq.Steps.{Op, enqueue, dequeue, ack, unack, size, clean, restart, step, run}

abbrev pub HasStatus : Row → Type 0
HasStatus r = (r.status ≡ waiting) ⊎ (r.status ≡ in_flight) ⊎ (r.status ≡ acked)

-- Ids ascend strictly between the two bounds, the upper one included.
abbrev pub IsOrdered : ℕ → ℕ → List Row → Type 0
IsOrdered lo hi [] = Unit {0}
IsOrdered lo hi (r ∷ rs) = (lo < r.id) × (r.id ≤ hi) × HasStatus r × IsOrdered r.id hi rs

pub record Inv (t : Table) : Type 0 where
  pub ordered : IsOrdered 0 t.seq t.rows
  pub fits : t.seq ≤ max_rowid

pub IsOrdered-weaken :
    {lo lo' : ℕ} (hi : ℕ) (rs : List Row) → lo' ≤ lo → IsOrdered lo hi rs → IsOrdered lo' hi rs
IsOrdered-weaken hi [] h o = tt
IsOrdered-weaken hi (r ∷ rs) h o = (omega arith, o.1, o.2, o.3)

insert-IsOrdered :
    (lo hi : ℕ) (rs : List Row) (r : Row)
    → lo ≤ hi
    → r.id ≡ hi + 1
    → r.status ≡ waiting
    → IsOrdered lo hi rs
    → IsOrdered lo (hi + 1) (rs ++ r ∷ [])
insert-IsOrdered lo hi [] r h e s o = (omega arith, omega arith, inl s, tt)
insert-IsOrdered lo hi (x ∷ rs) r h e s o =
    (o.0, omega arith, o.2, insert-IsOrdered x.id hi rs r o.1 e s o.3)

pub insert_row-Inv :
    (blob : List ℕ) (t : Table) → t.seq < max_rowid → Inv t → Inv (insert_row blob t)
unfolding insert_row
insert_row-Inv blob t h v = record {
  ordered = insert-IsOrdered 0 t.seq t.rows _ (omega arith) refl refl v.ordered;
  fits = omega arith;
}

mark-IsOrdered :
    (lo hi s : ℕ) (id : ℤ) (rs : List Row)
    → ((s ≡ waiting) ⊎ (s ≡ in_flight) ⊎ (s ≡ acked))
    → IsOrdered lo hi rs
    → IsOrdered lo hi (map (mark s id) rs)
unfolding mark
mark-IsOrdered lo hi s id [] h o = tt
mark-IsOrdered lo hi s (negsuc n) (r ∷ rs) h o =
    (o.0, o.1, o.2, mark-IsOrdered r.id hi s (negsuc n) rs h o.3)
mark-IsOrdered lo hi s (pos n) (r ∷ rs) h o =
    ground (arith, mark-IsOrdered r.id hi s (pos n) rs h o.3)

pub set_row_status-Inv :
    (s : ℕ) (id : ℤ) (t : Table)
    → ((s ≡ waiting) ⊎ (s ≡ in_flight) ⊎ (s ≡ acked))
    → Inv t
    → Inv (set_row_status s id t)
unfolding set_row_status
set_row_status-Inv s id t h v = record {
  ordered = mark-IsOrdered 0 t.seq s id t.rows h v.ordered;
  fits = v.fits;
}

pub keep-IsOrdered :
    (lo hi : ℕ) (rs : List Row) → IsOrdered lo hi rs → IsOrdered lo hi (keep is_kept rs)
unfolding keep
keep-IsOrdered lo hi [] o = tt
keep-IsOrdered lo hi (r ∷ rs) o = ground (
  arith,
  keep-IsOrdered r.id hi rs o.3,
  IsOrdered-weaken {lo = r.id} {lo' = lo} hi (keep is_kept rs),
)

delete_acked-Inv : (t : Table) → Inv t → Inv (delete_acked t)
unfolding delete_acked
delete_acked-Inv t v = record { ordered = keep-IsOrdered 0 t.seq t.rows v.ordered; fits = v.fits }

take_row-Inv : (db : Answers) (r : Row) (t : Table) → Inv t → Inv (take_row db r t).0
unfolding take_row
take_row-Inv db r t v = ground (arith, set_row_status-Inv in_flight (pos r.id) t (inr (inl refl)) v)

dequeue_tx-Inv : (db : Answers) (t : Table) → Inv t → Inv (dequeue_tx db t).0
unfolding dequeue_tx
dequeue_tx-Inv db t v = elim (Option-cases (scanned db.scans (first_waiting t.rows))) [
  | inl e ↦ rw (e, dequeue_tx) (ground arith)
  | inr (r, e) ↦ rw (e, dequeue_tx) (ground (arith, take_row-Inv db r t v))
]

-- Every call keeps the invariant of a queue's table, whatever the database answers.
pub step-Inv : (o : Op) (t : Table) → Inv t → Inv (step o t)
unfolding step enqueue_tx set_status_tx size_tx clean_tx
step-Inv (enqueue db d g p) t v = ground (arith, insert_row-Inv (encode d g p) t)
step-Inv (dequeue db) t v = dequeue_tx-Inv db t v
step-Inv (ack db id) t v = ground (arith, set_row_status-Inv acked id t (inr (inr refl)) v)
step-Inv (unack db id) t v = ground (arith, set_row_status-Inv waiting id t (inl refl) v)
step-Inv (size db) t v = ground arith
step-Inv (clean db) t v = ground (arith, delete_acked-Inv t v)
step-Inv restart t v = v

pub run-Inv : (os : List Op) (t : Table) → Inv t → Inv (run os t)
unfolding run
run-Inv [] t v = v
run-Inv (o ∷ os) t v = run-Inv os (step o t) (step-Inv o t v)

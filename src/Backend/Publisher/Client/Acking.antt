-- ===== src/Backend/Publisher/Client/Acking.antt =====
-- What an acknowledgement by the publisher (service/mqtt.go) does when the database may fail.
use trackeroo.Base.{
  ◌≡◌, refl, ap, ◌∙◌, ◌⊎◌, inl, inr, Option, some, List, [], ◌∷◌, map, keep, lookup, ℤ, pos,
  minus_one, Outcome, returned, panicked, Bool-cases, ◌&&◌,
}
use trackeroo.Sqlite.{Row, Table, acked, in_flight, mark, set_row_status, is_waiting}
use trackeroo.Backend.Pq.{Queues, Answers, Error, set_status_tx, set_status, ack}
use trackeroo.Backend.Pq.Invariant.{Inv, set_row_status-Inv}
use trackeroo.Backend.Pq.Fifo.{waiting_rows}
use trackeroo.Backend.Publisher.{End, went, stuck, crashed, Sent, data_queue, acknowledged}
use trackeroo.Backend.Publisher.Calls.{on_queue_found}
use trackeroo.Backend.Publisher.Oldest.{put, put_found, taken_table, waiting_after}

unfoldable pub queues_of : End → Queues
queues_of (went qs sent) = qs
queues_of (stuck qs sent) = qs
queues_of (crashed qs sent) = qs

-- what the broker has taken
unfoldable pub sent_of : End → Sent
sent_of (went qs sent) = sent
sent_of (stuck qs sent) = sent
sent_of (crashed qs sent) = sent

acknowledged_queues :
    (sent : Sent) (qs : Queues) (o : Outcome (Option Error))
    → queues_of (acknowledged sent (qs, o)) ≡ qs
unfolding queues_of acknowledged
acknowledged_queues sent qs panicked = refl
acknowledged_queues sent qs (returned x) = refl

acknowledged_sent :
    (sent : Sent) (qs : Queues) (o : Outcome (Option Error))
    → sent_of (acknowledged sent (qs, o)) ≡ sent
unfolding sent_of acknowledged
acknowledged_sent sent qs panicked = refl
acknowledged_sent sent qs (returned x) = refl

-- an acknowledgement that may fail
pub set_status_table :
    (db : Answers) (id : ℤ) (t : Table)
    → ((set_status_tx db id acked t).0 ≡ t)
      ⊎ ((set_status_tx db id acked t).0 ≡ set_row_status acked id t)
unfolding set_status_tx
set_status_table db id t = elim (Bool-cases (db.begins && db.prepares)) [
  | inl b ↦ elim (Bool-cases db.executes) [
    | inl e ↦ elim (Bool-cases db.commits) [
      | inl c ↦ inr (simp (b, e, c))
      | inr c ↦ inl (simp (b, e, c))
    ]
    | inr e ↦ inl (simp (b, e))
  ]
  | inr b ↦ inl (simp b)
]

abbrev pub acking : Answers → ℤ → Queues → Sent → End
acking db id qs sent = acknowledged sent (ack db data_queue id qs)

ack_found :
    (db : Answers) (id : ℤ) (t : Table) (qs : Queues)
    → lookup data_queue qs ≡ some t
    → ack db data_queue id qs
      ≡ (put (set_status_tx db id acked t).0 qs, (set_status_tx db id acked t).1)
unfolding ack set_status
ack_found db id t qs l = on_queue_found data_queue qs _ (set_status_tx db id acked) t l

pub acking_queues :
    (db : Answers) (id : ℤ) (t : Table) (qs : Queues) (sent : Sent)
    → lookup data_queue qs ≡ some t
    → lookup data_queue (queues_of (acking db id qs sent)) ≡ some (set_status_tx db id acked t).0
acking_queues db id t qs sent l =
    ap (λ q. lookup data_queue (queues_of (acknowledged sent q))) (ack_found db id t qs l)
    ∙ ap (lookup data_queue) (acknowledged_queues sent _ (set_status_tx db id acked t).1)
    ∙ put_found (set_status_tx db id acked t).0 qs

pub acking_sent :
    (db : Answers) (id : ℤ) (t : Table) (qs : Queues) (sent : Sent)
    → lookup data_queue qs ≡ some t
    → sent_of (acking db id qs sent) ≡ sent
acking_sent db id t qs sent l =
    ap (λ q. sent_of (acknowledged sent q)) (ack_found db id t qs l)
    ∙ acknowledged_sent sent _ (set_status_tx db id acked t).1

mark_none : (rs : List Row) → map (mark acked minus_one) rs ≡ rs
unfolding mark
mark_none [] = refl
mark_none (r ∷ rs) = ap (λ x. r ∷ x) (mark_none rs)

-- the id of a failed call is that of no row
pub none_acked :
    (db : Answers) (t : Table)
    → waiting_rows (set_status_tx db minus_one acked t).0 ≡ waiting_rows t
none_acked db t = elim (set_status_table db minus_one t) [
  | inl e ↦ ap waiting_rows e
  | inr e ↦ ap waiting_rows e ∙ ap (keep is_waiting) (unfold set_row_status in mark_none t.rows)
]

pub set_status_tx-Inv :
    (db : Answers) (id : ℤ) (t : Table) → Inv t → Inv (set_status_tx db id acked t).0
set_status_tx-Inv db id t v = elim (set_status_table db id t) [
  | inl e ↦ rw e v
  | inr e ↦ rw e (set_row_status-Inv acked id t (inr (inr refl)) v)
]

pub row_acked :
    (db : Answers) (t : Table) (r : Row) (rest : List Row)
    → Inv t
    → waiting_rows t ≡ r ∷ rest
    → waiting_rows (taken_table r t) ≡ rest
    → waiting_rows (set_status_tx db (pos r.id) acked (taken_table r t)).0 ≡ rest
row_acked db t r rest v w w' = elim (set_status_table db (pos r.id) (taken_table r t)) [
  | inl e ↦ ap waiting_rows e ∙ w'
  | inr e ↦ ap waiting_rows e ∙ waiting_after t r rest v w
]

pub taken-Inv : (t : Table) (r : Row) → Inv t → Inv (taken_table r t)
taken-Inv t r v = set_row_status-Inv in_flight (pos r.id) t (inr (inl refl)) v

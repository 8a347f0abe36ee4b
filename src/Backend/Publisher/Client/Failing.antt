-- ===== src/Backend/Publisher/Client/Failing.antt =====
-- The loop of the publisher (service/mqtt.go) when calls of the database and the broker fail.
use trackeroo.Base.{
  ℕ, ◌≡◌, refl, sym, ◌⊎◌, inl, inr, Bool, true, false, some, List, [], ◌∷◌, ◌++◌, append-nil,
  append_assoc, map, lookup,
}
use trackeroo.Sqlite.{Row, Table}
use trackeroo.Backend.Pq.{Queues}
use trackeroo.Backend.Pq.Invariant.{Inv}
use trackeroo.Backend.Pq.Fifo.{waiting_rows}
use trackeroo.Backend.Publisher.{Turn, End, went, stuck, crashed, Sent, data_queue, publish_next}
use trackeroo.Backend.Publisher.Client.{run_after, run_turns}
use trackeroo.Backend.Publisher.Client.Acking.{queues_of, sent_of}
use trackeroo.Backend.Publisher.Client.Turning.{
  message_of, Turned, kept, handed, publish_next-Turned,
}

-- the messages that stay of a list, by one choice for each
unfoldable pub picked : List Bool → Sent → Sent
picked [] ms = []
picked (b ∷ bs) [] = []
picked (true ∷ bs) (m ∷ ms) = m ∷ picked bs ms
picked (false ∷ bs) (m ∷ ms) = picked bs ms

-- Of the waiting messages some are sent after `sent`, each once and in their order.
abbrev pub SendsSome : Table → Sent → Sent → Type 0
SendsSome t sent sent' =
    (choices : List Bool) × (sent' ≡ sent ++ picked choices (map message_of (waiting_rows t)))

SendsSome-none : (t : Table) (sent : Sent) → SendsSome t sent sent
unfolding picked
SendsSome-none t sent = ([], sym (append-nil sent))

SendsSome-passed :
    (t t' : Table) (r : Row) (rest : List Row) (sent sent' : Sent)
    → waiting_rows t ≡ r ∷ rest
    → waiting_rows t' ≡ rest
    → SendsSome t' sent sent'
    → SendsSome t sent sent'
unfolding picked
SendsSome-passed t t' r rest sent sent' w w' (c, e) = (false ∷ c, rw (e, w', w) refl)

SendsSome-sent :
    (t t' : Table) (r : Row) (rest : List Row) (sent sent' : Sent)
    → waiting_rows t ≡ r ∷ rest
    → waiting_rows t' ≡ rest
    → SendsSome t' (sent ++ message_of r ∷ []) sent'
    → SendsSome t sent sent'
unfolding picked
SendsSome-sent t t' r rest sent sent' w w' (c, e) = (
  true ∷ c,
  rw (e, w', w) (append_assoc sent (message_of r ∷ []) (picked c (map message_of rest))),
)

Turned-SendsSome :
    (t : Table) (sent sent' : Sent) (e : End)
    → Turned t sent e
    → ((t' : Table)
        → lookup data_queue (queues_of e) ≡ some t'
        → Inv t'
        → SendsSome t' (sent_of e) sent')
    → SendsSome t sent sent'
Turned-SendsSome t sent sent' e (kept t' l v w s) more =
    let (c, f) = rw s at more t' l v in (c, rw w at f)
Turned-SendsSome t sent sent' e (handed t' r rest l v w w' (inl s)) more =
    SendsSome-passed t t' r rest sent sent' w w' (rw s at more t' l v)
Turned-SendsSome t sent sent' e (handed t' r rest l v w w' (inr s)) more =
    SendsSome-sent t t' r rest sent sent' w w' (rw s at more t' l v)

goes_on_or_ends :
    (e : End) (next : Queues → Sent → End)
    → (run_after e next ≡ next (queues_of e) (sent_of e)) ⊎ (run_after e next ≡ e)
unfolding run_after queues_of sent_of
goes_on_or_ends (went qs sent) next = inl refl
goes_on_or_ends (stuck qs sent) next = inr refl
goes_on_or_ends (crashed qs sent) next = inr refl

-- Whatever calls of the database and the broker fail, what the loop of the publisher sends are some
-- of the waiting messages, each at most once, in their order and unchanged: the text of a row, cut
-- at its first two slashes. The queue's invariant holds at the start.
pub run_turns-SendsSome :
    (fuel : ℕ) (turns : List Turn) (qs : Queues) (sent : Sent) (t : Table)
    → lookup data_queue qs ≡ some t
    → Inv t
    → SendsSome t sent (sent_of (run_turns fuel turns qs sent))
unfolding run_turns
run_turns-SendsSome fuel [] qs sent t l v = unfold sent_of in SendsSome-none t sent
run_turns-SendsSome fuel (a ∷ more) qs sent t l v =
    Turned-SendsSome t sent _ (publish_next a fuel qs sent)
      (publish_next-Turned a fuel t qs sent l v)
      (λ t' l' v'. elim (goes_on_or_ends (publish_next a fuel qs sent) (run_turns fuel more)) [
        | inl e ↦ rw e (run_turns-SendsSome fuel more _ _ t' l' v')
        | inr e ↦ rw e (SendsSome-none t' (sent_of (publish_next a fuel qs sent)))
      ])

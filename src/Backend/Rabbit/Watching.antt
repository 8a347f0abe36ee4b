-- ===== src/Backend/Rabbit/Watching.antt =====
-- The watcher of service/rabbit.go closes what it opens, and keeps the status of every device that
-- the broker's events name.
use trackeroo.Base.{
  ℕ, ◌+◌, ◌≡◌, refl, ap, ◌∙◌, Bool, true, false, none, some, List, [], ◌∷◌, ◌++◌, Bytes, codes,
  ◌>>=◌, bytes_eq, if◌then◌else◌, Bool-cases, Option-cases, inl, inr, arith,
}
use trackeroo.Backend.Connectivity.{Connectivity, init_connectivity_cache, get_device_status}
use trackeroo.Backend.Connectivity.History.{Event, replay, status_of, InRange}
use trackeroo.Backend.Connectivity.Refinement.{kept_as, get_device_status-replay}
use trackeroo.Backend.Rabbit.{
  Message, Watcher, Input, cancelled, channel_closed, received, Ended, stopped, reconnecting,
  waiting, Session, get_client_ip, event_of, dispatch, on_message, close_conn, close_channel, nap,
  consume, run_session, run_rabbit_watcher,
}

-- how many connections, and channels, a watcher holds that ended like this
abbrev pub held : Ended → ℕ
held stopped = 0
held reconnecting = 0
held waiting = 1

-- what was open before is open after, and what is held is open besides
abbrev pub Balanced : Watcher → Watcher × Ended → Type 0
Balanced w r =
    (r.0.open_conns ≡ w.open_conns + held r.1) × (r.0.open_channels ≡ w.open_channels + held r.1)

on_message_keeps :
    (msg : Message) (w : Watcher)
    → ((on_message msg w).open_conns ≡ w.open_conns)
      × ((on_message msg w).open_channels ≡ w.open_channels)
unfolding on_message
on_message_keeps msg w = (refl, refl)

consume_balanced :
    (inputs : List Input) (w : Watcher) (n m : ℕ)
    → w.open_conns ≡ n + 1
    → w.open_channels ≡ m + 1
    → ((consume inputs w).0.open_conns ≡ n + held (consume inputs w).1)
      × ((consume inputs w).0.open_channels ≡ m + held (consume inputs w).1)
unfolding consume close_conn close_channel nap
consume_balanced [] w n m e f = (e, f)
consume_balanced (cancelled ∷ rest) w n m e f = (omega (arith, e), omega (arith, f))
consume_balanced (channel_closed ∷ rest) w n m e f = (omega (arith, e), omega (arith, f))
consume_balanced (received msg ∷ rest) w n m e f =
    let k = on_message_keeps msg w in
    consume_balanced rest (on_message msg w) n m (k.0 ∙ e) (k.1 ∙ f)

run_session-Balanced : (s : Session) (w : Watcher) → Balanced w (run_session s w)
unfolding run_session close_conn close_channel nap
run_session-Balanced s w = elim (Bool-cases s.done) [
  | inl e ↦ rw e (omega arith, omega arith)
  | inr e0 ↦ elim (Bool-cases s.dial) [
    | inr e ↦ rw (e0, e) (omega arith, omega arith)
    | inl e1 ↦ elim (Bool-cases s.channel) [
      | inr e ↦ rw (e0, e1, e) (omega arith, omega arith)
      | inl e2 ↦ elim (Bool-cases s.declare) [
        | inr e ↦ rw (e0, e1, e2, e) (omega arith, omega arith)
        | inl e3 ↦ elim (Bool-cases s.bind) [
          | inr e ↦ rw (e0, e1, e2, e3, e) (omega arith, omega arith)
          | inl e4 ↦ elim (Bool-cases s.subscribe) [
            | inr e ↦ rw (e0, e1, e2, e3, e4, e) (omega arith, omega arith)
            | inl e5 ↦
                rw (e0, e1, e2, e3, e4, e5)
                  (consume_balanced s.inputs _ w.open_conns w.open_channels refl refl)
          ]
        ]
      ]
    ]
  ]
]

-- the step of the outer loop, where `more` is what the later sessions do
next_session :
    (ended : Ended) (w w' : Watcher) (more : Watcher × Ended)
    → Balanced w (w', ended)
    → Balanced w' more
    → Balanced w
        (elim ended [ reconnecting ↦ more | stopped ↦ (w', stopped) | waiting ↦ (w', waiting) ])
next_session reconnecting w w' more b m = (omega (arith, b.0, m.0), omega (arith, b.1, m.1))
next_session stopped w w' more b m = b
next_session waiting w w' more b m = b

-- However the sessions go - dialling, opening the channel, declaring, binding or subscribing may
-- fail, the broker may close the channel, the context may be cancelled - the watcher ends with as
-- many open connections and channels as it had before, plus one of each where it still waits for
-- messages.
pub run_rabbit_watcher-Balanced :
    (ss : List Session) (w : Watcher) → Balanced w (run_rabbit_watcher ss w)
unfolding run_rabbit_watcher
run_rabbit_watcher-Balanced [] w = (omega arith, omega arith)
run_rabbit_watcher-Balanced (s ∷ ss) w =
    next_session (run_session s w).1 w (run_session s w).0 _ (run_session-Balanced s w)
      (run_rabbit_watcher-Balanced ss (run_session s w).0)

abbrev event_for : Message → Bytes → Bool → Event
event_for msg user b = record {
  dev_id = user;
  ip = get_client_ip (elim msg.name [ none ↦ [] | some n ↦ n ]);
  timestamp = msg.timestamp;
  connected = b;
}

-- The events that a message stands for: none where it names no user or has another routing key.
abbrev pub events_of : Message → List Event
events_of msg = elim msg.user [
  | none ↦ []
  | some user ↦
      if bytes_eq msg.routing_key (codes "connection.created")
      then event_for msg user true ∷ []
      else if bytes_eq msg.routing_key (codes "connection.closed")
      then event_for msg user false ∷ []
      else []
]

-- The history that a session's inputs make of the one before, up to the input that ends it.
abbrev pub heard : List Input → List Event → List Event
heard [] older = older
heard (cancelled ∷ rest) older = older
heard (channel_closed ∷ rest) older = older
heard (received msg ∷ rest) older = heard rest (events_of msg ++ older)

on_message-replay :
    (msg : Message) (w : Watcher) (older : List Event) (c : Connectivity)
    → w.connectivity ≡ replay older c
    → (on_message msg w).connectivity ≡ replay (events_of msg ++ older) c
unfolding on_message dispatch event_of replay
on_message-replay msg w older c e = elim (Option-cases msg.user) [
  | inl n ↦ rw n e
  | inr (user, n) ↦ elim (Bool-cases (bytes_eq msg.routing_key (codes "connection.created"))) [
    | inl f ↦ rw (n, f, e) refl
    | inr f ↦ elim (Bool-cases (bytes_eq msg.routing_key (codes "connection.closed"))) [
      | inl g ↦ rw (n, f, g, e) refl
      | inr g ↦ rw (n, f, g) e
    ]
  ]
]

-- A session keeps the connectivity that the replay of the events it has heard gives.
pub consume-replay :
    (inputs : List Input) (w : Watcher) (older : List Event) (c : Connectivity)
    → w.connectivity ≡ replay older c
    → (consume inputs w).0.connectivity ≡ replay (heard inputs older) c
unfolding consume close_conn close_channel nap
consume-replay [] w older c e = e
consume-replay (cancelled ∷ rest) w older c e = e
consume-replay (channel_closed ∷ rest) w older c e = e
consume-replay (received msg ∷ rest) w older c e =
    consume-replay rest (on_message msg w) (events_of msg ++ older) c
      (on_message-replay msg w older c e)

-- While the watcher consumes the broker's deliveries, from empty stores, the status of every device
-- is the one that the history of the events heard so far gives: messages without a user and other
-- routing keys change nothing, and what comes after the channel has closed is not heard. The times
-- are assumed to be in range.
pub get_device_status-consume :
    (ping : Bool) (id : Bytes) (inputs : List Input) (w : Watcher)
    → w.connectivity ≡ init_connectivity_cache ping []
    → InRange (heard inputs [])
    → get_device_status true id (consume inputs w).0.connectivity
      ≡ (status_of id (heard inputs []) >>= (λ s. some (kept_as ping s)))
get_device_status-consume ping id inputs w e r =
    ap (get_device_status true id)
      (consume-replay inputs w [] (init_connectivity_cache ping []) (e ∙ unfold replay in refl))
    ∙ get_device_status-replay ping id (heard inputs []) r

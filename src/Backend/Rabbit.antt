-- ===== src/Backend/Rabbit.antt =====
-- trackeroo-backend/src/internal/service/rabbit.go: the watcher of RabbitMQ's connection events.
-- What the broker answers and delivers is an argument; Redis answers all calls.
pub mod Watching
pub mod Names
use trackeroo.Base.{
  ℕ, ◌+◌, ◌-◌, ◌==◌, ltb, leb, Bool, true, false, not, ◌&&◌, ◌||◌, Option, none, some, List, [],
  ◌∷◌, Bytes, codes, bytes_eq, split, if◌then◌else◌,
}
use trackeroo.Backend.Model.{Time}
use trackeroo.Backend.Connectivity.{Connectivity, set_device_status}

-- puts a byte before the first part
push_first : ℕ → List Bytes → List Bytes
push_first c [] = (c ∷ []) ∷ []
push_first c (p ∷ ps) = (c ∷ p) ∷ ps

-- `strings.Split(s, "->")`
unfoldable pub split_arrow : Bytes → List Bytes
unfolding push_first
split_arrow [] = [] ∷ []
split_arrow (c ∷ []) = (c ∷ []) ∷ []
split_arrow (c ∷ d ∷ s) =
    let after = split_arrow s in
    let next = split_arrow (d ∷ s) in
    if c == b'-' && d == b'>' then [] ∷ after else push_first c next

-- the spaces of ASCII
abbrev is_space : ℕ → Bool
is_space c = c == b' ' || leb 9 c && leb c 13

trim_left : Bytes → Bytes
trim_left [] = []
trim_left (c ∷ s) = if is_space c then trim_left s else c ∷ s

trim_right : Bytes → Bytes
trim_right [] = []
trim_right (c ∷ s) =
    let rest = trim_right s in
    elim rest [ [] ↦ if is_space c then [] else c ∷ [] | d ∷ t ↦ c ∷ d ∷ t ]

-- `strings.TrimSpace` on a text in ASCII
unfoldable pub trim_space : Bytes → Bytes
unfolding trim_left trim_right
trim_space s = trim_right (trim_left s)

unfoldable pub first_part : List Bytes → Bytes
first_part [] = []
first_part (p ∷ ps) = p

unfoldable pub get_client_ip : Bytes → Bytes
unfolding split_arrow trim_space first_part split
get_client_ip conn_name = elim (split_arrow conn_name) [
  | left ∷ right ∷ [] ↦ first_part (split b':' (trim_space right))
  | _ ↦ []
]

-- A header is nothing where it is missing or not a text.
pub record Message : Type 0 where
  pub user : Option Bytes
  pub name : Option Bytes
  pub timestamp : Time
  pub routing_key : Bytes

pub record ConnectionEvent : Type 0 where
  pub timestamp : Time
  pub user : Bytes
  pub name : Bytes

-- The state of the watcher: what it has open, how often it has acknowledged and slept.
pub record Watcher : Type 0 where
  pub connectivity : Connectivity
  pub open_conns : ℕ
  pub open_channels : ℕ
  pub acked : ℕ
  pub naps : ℕ

unfoldable pub event_of : Bytes → Message → ConnectionEvent
event_of user msg = record {
  timestamp = msg.timestamp;
  user = user;
  name = elim msg.name [ none ↦ [] | some n ↦ n ];
}

-- `switch msg.RoutingKey`
unfoldable pub dispatch : Bytes → ConnectionEvent → Connectivity → Connectivity
unfolding set_device_status get_client_ip
dispatch key ev c =
    if bytes_eq key (codes "connection.created")
    then set_device_status true true ev.user (get_client_ip ev.name) ev.timestamp true c
    else if bytes_eq key (codes "connection.closed")
    then set_device_status true true ev.user (get_client_ip ev.name) ev.timestamp false c
    else c

-- A message is acknowledged before it is looked at.
unfoldable pub on_message : Message → Watcher → Watcher
unfolding event_of dispatch
on_message msg w = record w {
  acked = w.acked + 1;
  connectivity = elim msg.user [
    | none ↦ w.connectivity
    | some user ↦ dispatch msg.routing_key (event_of user msg) w.connectivity
  ];
}

unfoldable pub close_conn : Watcher → Watcher
close_conn w = record w { open_conns = w.open_conns - 1 }

unfoldable pub close_channel : Watcher → Watcher
close_channel w = record w { open_channels = w.open_channels - 1 }

unfoldable pub nap : Watcher → Watcher
nap w = record w { naps = w.naps + 1 }

-- What the inner `select` meets.
pub data Input : Type 0 where
  cancelled : Input
  channel_closed : Input
  received : Message → Input

-- How a session ends: the watcher returns, dials again, or still waits for the next input.
pub data Ended : Type 0 where
  stopped reconnecting waiting : Ended

unfoldable pub consume : List Input → Watcher → Watcher × Ended
unfolding on_message close_conn close_channel nap
consume [] w = (w, waiting)
consume (cancelled ∷ rest) w = (close_conn (close_channel w), stopped)
consume (channel_closed ∷ rest) w = (nap (close_conn (close_channel w)), reconnecting)
consume (received msg ∷ rest) w = consume rest (on_message msg w)

-- Which of the calls of one session answer, and whether the context is done before it.
pub record Session : Type 0 where
  pub done : Bool
  pub dial : Bool
  pub channel : Bool
  pub declare : Bool
  pub bind : Bool
  pub subscribe : Bool
  pub inputs : List Input

-- one turn of the outer loop
unfoldable pub run_session : Session → Watcher → Watcher × Ended
unfolding consume close_conn close_channel nap
run_session s w =
    let dialled = record w { open_conns = w.open_conns + 1 } in
    let opened = record dialled { open_channels = w.open_channels + 1 } in
    let given_up : Watcher × Ended = (nap (close_conn (close_channel opened)), reconnecting) in
    if s.done
    then (w, stopped)
    else if not s.dial
    then (nap w, reconnecting)
    else if not s.channel
    then (nap (close_conn dialled), reconnecting)
    else if not s.declare
    then given_up
    else if not s.bind
    then given_up
    else if not s.subscribe
    then given_up
    else consume s.inputs opened

-- The outer loop, over the sessions that it meets.
unfoldable pub run_rabbit_watcher : List Session → Watcher → Watcher × Ended
unfolding run_session
run_rabbit_watcher [] w = (w, reconnecting)
run_rabbit_watcher (s ∷ rest) w =
    let (w', ended) = run_session s w in
    elim ended [
      | reconnecting ↦ run_rabbit_watcher rest w'
      | stopped ↦ (w', stopped)
      | waiting ↦ (w', waiting)
    ]

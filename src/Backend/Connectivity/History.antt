-- ===== src/Backend/Connectivity/History.antt =====
-- What service/connectivity.go says of a device after a history of connections and disconnections.
use trackeroo.Base.{
  ◌≡◌, refl, sym, Bool, true, false, not, ◌&&◌, Option, none, some, List, [], ◌∷◌, ◌>>=◌, Bytes,
  bytes_eq, lookup, if◌then◌else◌, pos, All, Bool-cases, Option-cases, inl, inr, arith,
}
use trackeroo.Base.Decimal.{IsInt64, parse_int-format_int, parse_bool-format_bool}
use trackeroo.Backend.Model.{Time, DeviceStatus}
use trackeroo.Backend.Connectivity.{
  Connectivity, unix, text_or_empty, map_to_struct, struct_to_map, initial_status, keep_other,
  other_time, set_device_status,
}

-- A call of `SetDeviceStatus`.
pub record Event : Type 0 where
  pub dev_id : Bytes
  pub ip : Bytes
  pub timestamp : Time
  pub connected : Bool

-- A history, the newest event first, and the calls that it stands for, Redis answering all of them.
unfoldable pub replay : List Event → Connectivity → Connectivity
unfolding set_device_status
replay [] c = c
replay (e ∷ older) c =
    set_device_status true true e.dev_id e.ip e.timestamp e.connected (replay older c)

-- the newest event that passes a test
unfoldable pub newest : (Event → Bool) → List Event → Option Event
newest p [] = none
newest p (e ∷ older) = if p e then some e else newest p older

unfoldable pub at_or_epoch : Option Event → Time
at_or_epoch none = unix (pos 0)
at_or_epoch (some e) = e.timestamp

abbrev pub is_of : Bytes → Event → Bool
is_of id e = bytes_eq e.dev_id id

-- The status that a history gives a device: the flag and the address of its newest event, and the
-- time of its newest connection and of its newest disconnection.
unfoldable pub status_of : Bytes → List Event → Option DeviceStatus
unfolding newest at_or_epoch
status_of id history = newest (is_of id) history >>= (λ e. some (record {
  connected = e.connected;
  last_connection = at_or_epoch (newest (λ x. is_of id x && x.connected) history);
  last_disconnection = at_or_epoch (newest (λ x. is_of id x && not x.connected) history);
  last_ip = e.ip;
}))

-- Redis keeps whole seconds, the fallback the time as it came.
unfoldable pub whole_seconds : DeviceStatus → DeviceStatus
whole_seconds s = record s {
  last_connection = unix s.last_connection.sec;
  last_disconnection = unix s.last_disconnection.sec;
}

abbrev pub InRange : List Event → Type 0
InRange = All (λ e. IsInt64 e.timestamp.sec)

-- the two times of a status are numbers of 64 bits
abbrev pub StatusInRange : DeviceStatus → Type 0
StatusInRange s = IsInt64 s.last_connection.sec × IsInt64 s.last_disconnection.sec

-- A status is read back from Redis as it was written, its times cut to whole seconds.
pub map_to_struct-struct_to_map :
    (s : DeviceStatus) → StatusInRange s → map_to_struct (struct_to_map s) ≡ some (whole_seconds s)
unfolding map_to_struct struct_to_map lookup bytes_eq text_or_empty whole_seconds
map_to_struct-struct_to_map s h =
    rw
      (
        parse_bool-format_bool s.connected,
        parse_int-format_int s.last_connection.sec h.0,
        parse_int-format_int s.last_disconnection.sec h.1,
      )
      refl

newest_and :
    (p q : Event → Bool) (h : List Event) → newest p h ≡ none → newest (λ x. p x && q x) h ≡ none
unfolding newest
newest_and p q [] n = refl
newest_and p q (e ∷ h) n = ground (arith, newest_and p q h)

at_or_epoch-newest :
    (p : Event → Bool) (h : List Event) → InRange h → IsInt64 (at_or_epoch (newest p h)).sec
unfolding at_or_epoch newest
at_or_epoch-newest p [] r = omega arith
at_or_epoch-newest p (e ∷ h) r = elim (Bool-cases (p e)) [
  | inl f ↦ rw f r.0
  | inr f ↦ rw f (at_or_epoch-newest p h r.1)
]

pub status_of-InRange :
    (id : Bytes) (h : List Event) (s : DeviceStatus)
    → InRange h
    → status_of id h ≡ some s
    → StatusInRange s
unfolding status_of
status_of-InRange id h s r e = elim (Option-cases (newest (is_of id) h)) [
  | inl n ↦ absurd (let e' = rw n at e in cc)
  | inr (x, n) ↦
      let same = some-inj (rw n at e) in
      rw (sym same) (at_or_epoch-newest _ h r, at_or_epoch-newest _ h r)
]
  where
    some-inj : {A : Type 0} {a b : A} → some a ≡ some b → a ≡ b
    some-inj q = cc

-- the status that an event makes of the one before
unfoldable pub next : Event → Option DeviceStatus → DeviceStatus
unfolding keep_other other_time initial_status
next e o =
    keep_other e.connected (o >>= (λ s. some (other_time e.connected s)))
      (initial_status e.ip e.timestamp e.connected)

pub status_of_skip :
    (id : Bytes) (e : Event) (h : List Event)
    → is_of id e ≡ false
    → status_of id (e ∷ h) ≡ status_of id h
unfolding status_of newest
status_of_skip id e h f = rw f refl

pub status_of_first :
    (id : Bytes) (e : Event) (h : List Event) (b : Bool)
    → is_of id e ≡ true
    → e.connected ≡ b
    → status_of id (e ∷ h) ≡ some (next e (status_of id h))
unfolding status_of newest next keep_other other_time initial_status at_or_epoch
status_of_first id e h true f c = elim (Option-cases (newest (is_of id) h)) [
  | inl n ↦ rw (f, c, n, newest_and (is_of id) (λ x. not x.connected) h n) refl
  | inr (x, n) ↦ rw (f, c, n) refl
]
status_of_first id e h false f c = elim (Option-cases (newest (is_of id) h)) [
  | inl n ↦ rw (f, c, n, newest_and (is_of id) (λ x. x.connected) h n) refl
  | inr (x, n) ↦ rw (f, c, n) refl
]

-- ===== src/Backend/Connectivity/Refinement.antt =====
-- service/connectivity.go keeps, in Redis and in the fallback alike, the status that the history of
-- the device's events gives.
use mathlib.Core.List.{foldl}
use trackeroo.Base.{
  ◌≡◌, refl, ap, sym, ◌∙◌, Bool, true, false, Option, none, some, List, [], ◌∷◌, ◌>>=◌, Bytes,
  bytes_eq, bytes_eq_iff, Dict, lookup, insert, lookup-insert, if◌then◌else◌, Bool-cases, inl, inr,
}
use trackeroo.Base.Decimal.{parse_int, parse_int-format_int, parse_bool}
use trackeroo.Backend.Model.{DeviceStatus}
use trackeroo.Backend.Cache.{SimpleCache, new_simple_cache, get-set}
use trackeroo.Backend.Cache
use trackeroo.Backend.Connectivity.{
  Connectivity, init_connectivity_cache, unix, last_connection_key, last_disconnection_key,
  map_to_struct, struct_to_map, hash_of, get_last_redis_key, hset, initial_status, keep_other,
  other_time, text_or_empty, set_device_status, get_device_status,
}
use trackeroo.Backend.Connectivity.History.{
  Event, replay, newest, status_of, whole_seconds, InRange, StatusInRange,
  map_to_struct-struct_to_map, status_of-InRange, next, status_of_skip, status_of_first,
}

-- what the two stores hold of a device that has this status
abbrev pub hash_for : Option DeviceStatus → Option (Dict Bytes)
hash_for o = o >>= (λ s. some (struct_to_map s))

abbrev pub OptionInRange : Option DeviceStatus → Type 0
OptionInRange none = Unit
OptionInRange (some s) = StatusInRange s

abbrev apply : Event → Connectivity → Connectivity
apply e c = set_device_status true true e.dev_id e.ip e.timestamp e.connected c

-- the fields that one call sends to Redis, where `hash` is what Redis has of the device
sent : Event → Dict Bytes → Dict Bytes
unfolding lookup struct_to_map keep_other initial_status
sent e hash = struct_to_map (
    keep_other e.connected
      (lookup (if e.connected then last_disconnection_key else last_connection_key) hash
        >>= parse_int
        >>= (λ i. some (unix i)))
      (initial_status e.ip e.timestamp e.connected))

sent-next :
    (e : Event) (o : Option DeviceStatus) (b : Bool)
    → e.connected ≡ b
    → OptionInRange o
    → sent e (hash_of (hash_for o)) ≡ struct_to_map (next e o)
unfolding sent hash_of struct_to_map next keep_other initial_status lookup bytes_eq other_time
sent-next e none true c h = rw c refl
sent-next e none false c h = rw c refl
sent-next e (some s) true c h = rw (c, parse_int-format_int s.last_disconnection.sec h.1) refl
sent-next e (some s) false c h = rw (c, parse_int-format_int s.last_connection.sec h.0) refl

abbrev merge : Dict Bytes → Dict Bytes → Dict Bytes
merge hash fields = foldl (λ h f. insert f.0 f.1 h) hash fields

-- the four fields replace all that Redis had
merge-struct_to_map :
    (o : Option DeviceStatus) (s : DeviceStatus)
    → merge (hash_of (hash_for o)) (struct_to_map s) ≡ struct_to_map s
unfolding hash_of struct_to_map insert bytes_eq
merge-struct_to_map none s = refl
merge-struct_to_map (some t) s = refl

set_device_status_redis :
    (e : Event) (c : Connectivity) (id : Bytes)
    → c.use_fallback ≡ false
    → lookup id (apply e c).redis ≡ (
        if bytes_eq e.dev_id id
        then some
            (merge (hash_of (lookup e.dev_id c.redis)) (sent e (hash_of (lookup e.dev_id c.redis))))
        else lookup id c.redis)
unfolding set_device_status hset get_last_redis_key sent
set_device_status_redis e c id u = rw u (lookup-insert e.dev_id id _ c.redis)

redis_step :
    (e : Event) (c : Connectivity) (o : Option DeviceStatus) (id : Bytes)
    → c.use_fallback ≡ false
    → OptionInRange o
    → lookup e.dev_id c.redis ≡ hash_for o
    → lookup id (apply e c).redis
      ≡ (if bytes_eq e.dev_id id then some (struct_to_map (next e o)) else lookup id c.redis)
redis_step e c o id u r held =
    let merged : merge (hash_of (hash_for o)) (sent e (hash_of (hash_for o)))
        ≡ struct_to_map (next e o) =
      ap (merge (hash_of (hash_for o))) (sent-next e o e.connected refl r)
      ∙ merge-struct_to_map o (next e o) in
    set_device_status_redis e c id u
    ∙ ap
        (λ d.
          if bytes_eq e.dev_id id
          then some (merge (hash_of d) (sent e (hash_of d)))
          else lookup id c.redis)
        held
    ∙ ap (λ m. if bytes_eq e.dev_id id then some m else lookup id c.redis) merged

same_store : (e : Event) (c : Connectivity) → (apply e c).use_fallback ≡ c.use_fallback
unfolding set_device_status
same_store e c = elim (Bool-cases c.use_fallback) [ inl f ↦ rw f refl | inr f ↦ rw f refl ]

pub replay_store : (h : List Event) (c : Connectivity) → (replay h c).use_fallback ≡ c.use_fallback
unfolding replay
replay_store [] c = refl
replay_store (e ∷ h) c = same_store e (replay h c) ∙ replay_store h c

pub status_of-OptionInRange :
    (id : Bytes) (h : List Event) (o : Option DeviceStatus)
    → InRange h
    → status_of id h ≡ o
    → OptionInRange o
status_of-OptionInRange id h none r e = tt
status_of-OptionInRange id h (some s) r e = status_of-InRange id h s r e

replay_cons :
    (e : Event) (h : List Event) (c : Connectivity) → replay (e ∷ h) c ≡ apply e (replay h c)
unfolding replay
replay_cons e h c = refl

-- Redis holds, after a history, the print of the status that the history gives.
pub replay_redis :
    (id : Bytes) (h : List Event) (c : Connectivity)
    → c.use_fallback ≡ false
    → ((j : Bytes) → lookup j c.redis ≡ none)
    → InRange h
    → lookup id (replay h c).redis ≡ hash_for (status_of id h)
replay_redis id [] c u empty r = unfold replay status_of newest in empty id
replay_redis id (e ∷ h) c u empty r =
    ap (λ k. lookup id k.redis) (replay_cons e h c)
    ∙ redis_step e (replay h c) (status_of e.dev_id h) id (replay_store h c ∙ u)
        (status_of-OptionInRange e.dev_id h _ r.1 refl) (replay_redis e.dev_id h c u empty r.1)
    ∙ elim (Bool-cases (bytes_eq e.dev_id id)) [
      | inl f ↦
          let same : e.dev_id ≡ id = (bytes_eq_iff e.dev_id id).0 f in
          rw f (
            ap (λ j. some (struct_to_map (next e (status_of j h)))) same
            ∙ ap hash_for (sym (status_of_first id e h e.connected f refl)))
      | inr f ↦ rw f (replay_redis id h c u empty r.1 ∙ ap hash_for (sym (status_of_skip id e h f)))
    ]

-- what one event does to the fallback, and a history
fallback_step :
    (e : Event) (c : Connectivity) (o : Option DeviceStatus) (id : Bytes)
    → c.use_fallback ≡ true
    → Cache.get e.dev_id c.fallback ≡ o
    → Cache.get id (apply e c).fallback
      ≡ (if bytes_eq e.dev_id id then some (next e o) else Cache.get id c.fallback)
unfolding set_device_status next
fallback_step e c o id u held = rw (u, held) (get-set e.dev_id id _ c.fallback)

replay_fallback :
    (id : Bytes) (h : List Event) (c : Connectivity)
    → c.use_fallback ≡ true
    → ((j : Bytes) → Cache.get j c.fallback ≡ none)
    → Cache.get id (replay h c).fallback ≡ status_of id h
replay_fallback id [] c u empty = unfold replay status_of newest in empty id
replay_fallback id (e ∷ h) c u empty =
    ap (λ k. Cache.get id k.fallback) (replay_cons e h c)
    ∙ fallback_step e (replay h c) (status_of e.dev_id h) id (replay_store h c ∙ u)
        (replay_fallback e.dev_id h c u empty)
    ∙ elim (Bool-cases (bytes_eq e.dev_id id)) [
      | inl f ↦
          let same : e.dev_id ≡ id = (bytes_eq_iff e.dev_id id).0 f in
          rw f (
            ap (λ j. some (next e (status_of j h))) same
            ∙ sym (status_of_first id e h e.connected f refl))
      | inr f ↦ rw f (replay_fallback id h c u empty ∙ sym (status_of_skip id e h f))
    ]

-- how precise the times are: Redis (`ping`) keeps whole seconds
abbrev pub kept_as : Bool → DeviceStatus → DeviceStatus
kept_as ping s = if ping then whole_seconds s else s

map_to_struct-hash_for :
    (o : Option DeviceStatus)
    → OptionInRange o
    → map_to_struct (hash_of (hash_for o)) ≡ (o >>= (λ s. some (whole_seconds s)))
unfolding hash_of
map_to_struct-hash_for none r =
    unfold map_to_struct lookup text_or_empty parse_bool bytes_eq in refl
map_to_struct-hash_for (some s) r = map_to_struct-struct_to_map s r

option_id : (o : Option DeviceStatus) → o ≡ (o >>= (λ s. some s))
option_id none = refl
option_id (some s) = refl

-- After any history of connections and disconnections, whose times are in range, from empty stores,
-- the status of every device is the one that the history gives: the flag and the address of its
-- newest event, and the times of its newest connection and of its newest disconnection. A device
-- without events is an error. This holds with Redis, which answers and keeps the times in whole
-- seconds, and with the fallback alike.
pub get_device_status-replay :
    (ping : Bool) (id : Bytes) (h : List Event)
    → InRange h
    → get_device_status true id (replay h (init_connectivity_cache ping []))
      ≡ (status_of id h >>= (λ s. some (kept_as ping s)))
unfolding get_device_status
get_device_status-replay true id h r =
    let c = init_connectivity_cache true [] in
    let u : c.use_fallback ≡ false = unfold init_connectivity_cache in refl in
    rw (replay_store h c ∙ u) (
      ap (λ d. map_to_struct (hash_of d))
        (replay_redis id h c u (λ j. unfold init_connectivity_cache lookup in refl) r)
      ∙ map_to_struct-hash_for (status_of id h) (status_of-OptionInRange id h _ r refl))
get_device_status-replay false id h r =
    let c = init_connectivity_cache false [] in
    let u : c.use_fallback ≡ true = unfold init_connectivity_cache in refl in
    rw (replay_store h c ∙ u) (
      replay_fallback id h c u
        (λ j. unfold init_connectivity_cache Cache.get new_simple_cache lookup in refl)
      ∙ option_id (status_of id h))

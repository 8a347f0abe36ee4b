-- ===== src/Backend/Connectivity/Listing.antt =====
-- What `GetDevicesStatus` of service/connectivity.go answers after a history of events.
use trackeroo.Base.{
  ◌≡◌, refl, ap, ◌∙◌, Bool, true, false, ◌||◌, Option, none, some, List, [], ◌∷◌, ◌>>=◌, Bytes,
  bytes_eq, bytes_eq_iff, Dict, lookup, insert, lookup-insert, if◌then◌else◌, Bool-cases, inl, inr,
  arith,
}
use trackeroo.Backend.Model.{DeviceStatus, empty_status}
use trackeroo.Backend.Cache.{SimpleCache}
use trackeroo.Backend.Cache
use trackeroo.Backend.Connectivity.{
  init_connectivity_cache, map_to_struct, struct_to_map, hash_of, or_empty, piped, collect,
  collect_fallback, get_devices_status,
}
use trackeroo.Backend.Connectivity.History.{
  Event, replay, status_of, whole_seconds, InRange, StatusInRange, map_to_struct-struct_to_map,
}
use trackeroo.Backend.Connectivity.Refinement.{
  hash_for, OptionInRange, status_of-OptionInRange, replay_store, replay_redis,
}

abbrev pub among : Bytes → List Bytes → Bool
among id [] = false
among id (j ∷ ids) = bytes_eq j id || among id ids

-- the status of a device in a listing from Redis
abbrev pub listed : Option DeviceStatus → DeviceStatus
listed o = or_empty (o >>= (λ s. some (whole_seconds s)))

piped-hash_for :
    (o : Option DeviceStatus) → OptionInRange o → piped (hash_of (hash_for o)) ≡ (listed o, false)
unfolding piped hash_of or_empty
piped-hash_for none r = refl
piped-hash_for (some s) r = unfold struct_to_map in rw (read s r) refl
  where
    read :
        (s : DeviceStatus)
        → StatusInRange s
        → map_to_struct (struct_to_map s) ≡ some (whole_seconds s)
    read s r = map_to_struct-struct_to_map s r

-- the loop over the answers, where each of them is that of a status
collect_lem :
    (rdb : Dict (Dict Bytes)) (known : Bytes → DeviceStatus) (id : Bytes) (ids : List Bytes)
    (result : Dict DeviceStatus)
    → ((j : Bytes) → piped (hash_of (lookup j rdb)) ≡ (known j, false))
    → (lookup id (collect rdb ids (result, false)).0
        ≡ (if among id ids then some (known id) else lookup id result))
      × ((collect rdb ids (result, false)).1 ≡ false)
collect_lem rdb known id [] result p = unfold collect in (refl, refl)
collect_lem rdb known id (j ∷ ids) result p =
    let rest = collect_lem rdb known id ids (insert j (known j) result) p in
    let step = collect_cons rdb (known j) j ids result (p j) in
    (
      ap (λ k. lookup id k.0) step
          ∙ rest.0
          ∙ ap (λ o. if among id ids then some (known id) else o)
              (lookup-insert j id (known j) result)
          ∙ chosen (among id ids),
      ap (λ k. k.1) step ∙ rest.1,
    )
  where
    collect_cons :
        (rdb : Dict (Dict Bytes)) (s : DeviceStatus) (j : Bytes) (ids : List Bytes)
        (result : Dict DeviceStatus)
        → piped (hash_of (lookup j rdb)) ≡ (s, false)
        → collect rdb (j ∷ ids) (result, false) ≡ collect rdb ids (insert j s result, false)
    collect_cons rdb s j ids result e = unfold collect in rw e refl

    chosen :
        (b : Bool)
        → (if b
            then some (known id)
            else if bytes_eq j id
            then some (known j)
            else lookup id result)
          ≡ (if bytes_eq j id || b then some (known id) else lookup id result)
    chosen b = elim (Bool-cases (bytes_eq j id)) [
      | inl f ↦
          let same : j ≡ id = (bytes_eq_iff j id).0 f in
          rw f (elim b as (λ b. (if b then some (known id) else some (known j)) ≡ some (known id)) [
            | true ↦ refl
            | false ↦ ap (λ k. some (known k)) same
          ])
      | inr f ↦ rw f refl
    ]

collect_fallback_lem :
    (fbc : SimpleCache DeviceStatus) (id : Bytes) (ids : List Bytes) (result : Dict DeviceStatus)
    → lookup id (collect_fallback fbc ids result)
      ≡ (if among id ids then some empty_status else lookup id result)
unfolding collect_fallback
collect_fallback_lem fbc id [] result = refl
collect_fallback_lem fbc id (j ∷ ids) result = elim (Cache.get j fbc) [
  | some s ↦ ground (
    arith,
    lookup-insert j id empty_status result,
    collect_fallback_lem fbc id ids (insert j empty_status result),
  )
  | none ↦ ground (
    arith,
    lookup-insert j id empty_status result,
    collect_fallback_lem fbc id ids (insert j empty_status result),
  )
]

-- The listing after any history of events in range, from empty stores, has an entry for exactly the
-- devices that were asked for, and no error. With Redis the entry is the status that the history
-- gives, or the empty status for a device without events; with the fallback it is the empty status
-- for every device, whatever happened.
pub get_devices_status-replay :
    (ping : Bool) (id : Bytes) (ids : List Bytes) (h : List Event)
    → InRange h
    → (lookup id (get_devices_status true ids (replay h (init_connectivity_cache ping []))).0 ≡ (
        if among id ids
        then some (if ping then listed (status_of id h) else empty_status)
        else none))
      × ((get_devices_status true ids (replay h (init_connectivity_cache ping []))).1 ≡ false)
unfolding get_devices_status
get_devices_status-replay true id ids h r =
    let c = init_connectivity_cache true [] in
    let u : c.use_fallback ≡ false = unfold init_connectivity_cache in refl in
    let filled =
      λ (j : Bytes). replay_redis j h c u (λ j. unfold init_connectivity_cache lookup in refl) r in
    rw (replay_store h c ∙ u) (
      unfold lookup in
      collect_lem (replay h c).redis (λ j. listed (status_of j h)) id ids []
        λ j.
          ap (λ d. piped (hash_of d)) (filled j)
          ∙ piped-hash_for (status_of j h) (status_of-OptionInRange j h _ r refl))
get_devices_status-replay false id ids h r =
    let c = init_connectivity_cache false [] in
    let u : c.use_fallback ≡ true = unfold init_connectivity_cache in refl in
    rw (replay_store h c ∙ u)
      (unfold lookup in collect_fallback_lem (replay h c).fallback id ids [], refl)

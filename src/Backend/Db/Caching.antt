-- ===== src/Backend/Db/Caching.antt =====
-- The caches of keys and credentials against the device documents.
use trackeroo.Base.{
  ◌≡◌, refl, ap, sym, ◌∙◌, inl, inr, Bool, true, Option, none, some, List, [], ◌∷◌, arith, Bytes,
  bytes_eq, bytes_eq_iff, Option-cases, Bool-cases,
}
use trackeroo.Backend.Model.{User, Device}
use trackeroo.Backend.Cache
use trackeroo.Backend.Server.{Server}
use trackeroo.Backend.Db.{
  Result, Result-cases, ok, err, get_device, insert_user, update_user, delete_user, insert_device,
  update_device, delete_device, get_device_credentials, get_device_key, store_key,
}

-- A call of service/db.go, with what it is given.
pub data Call : Type 0 where
  inserts_user : Bool → Bytes → User → Call
  updates_user : Bool → User → Call
  deletes_user : Bool → Bytes → Call
  inserts_device : Bytes → Bool → Bool → Device → Call
  reads_credentials : Bool → Bytes → Call
  reads_key : Bool → Bytes → Call
  updates_device : Bool → Bytes → Device → Call
  deletes_device : Bool → Bytes → Call

module _ (from_hex : Bytes → Option Bytes) where
  pub call : Call → Server → Server
  call (inserts_user up fresh user) s = (insert_user up fresh user s).0
  call (updates_user up user) s = (update_user up user s).0
  call (deletes_user up id) s = (delete_user up id s).0
  call (inserts_device id up reads device) s = (insert_device id up reads device s).0
  call (reads_credentials up id) s = (get_device_credentials up id s).0
  call (reads_key up id) s = (get_device_key up id s).0
  call (updates_device up id device) s = (update_device up id device s).0
  call (deletes_device up id) s = (delete_device from_hex up id s).0

  pub calls : List Call → Server → Server
  calls [] s = s
  calls (c ∷ cs) s = calls cs (call c s)

key_hit :
    (up : Bool) (id : Bytes) (s : Server) (k : Bytes)
    → Cache.get id s.keys_cache ≡ some k
    → get_device_key up id s ≡ (s, ok k)
unfolding get_device_key
key_hit up id s k e = rw (e, get_device_key)

key_miss :
    (up : Bool) (id : Bytes) (s : Server)
    → Cache.get id s.keys_cache ≡ none
    → get_device_key up id s ≡ store_key id (get_device up id s) s
unfolding get_device_key
key_miss up id s e = rw (e, get_device_key)

-- A fetched key is the cached one from then on.
key_cached :
    (up : Bool) (id : Bytes) (s : Server) (k : Bytes)
    → (get_device_key up id s).1 ≡ ok k
    → Cache.get id (get_device_key up id s).0.keys_cache ≡ some k
unfolding store_key
key_cached up id s k h = elim (Option-cases (Cache.get id s.keys_cache)) [
  | inl e ↦ elim (Result-cases (get_device up id s)) [
    | inl (d, f) ↦
        let same : get_device_key up id s ≡ store_key id (ok d) s =
          key_miss up id s e ∙ ap (λ r. store_key id r s) f in
        ground (arith, same, Cache.get-set id id k s.keys_cache, bytes_eq_iff id id)
    | inr (x, f) ↦
        let same : get_device_key up id s ≡ store_key id (err x) s =
          key_miss up id s e ∙ ap (λ r. store_key id r s) f in
        ground (arith, same)
  ]
  | inr (k', e) ↦ ground (arith, key_hit up id s k' e)
]

reads_key-keeps :
    (up : Bool) (j id : Bytes) (s : Server) (k : Bytes)
    → Cache.get id s.keys_cache ≡ some k
    → Cache.get id (get_device_key up j s).0.keys_cache ≡ some k
unfolding store_key
reads_key-keeps up j id s k h = elim (Option-cases (Cache.get j s.keys_cache)) [
  | inl e ↦ elim (Result-cases (get_device up j s)) [
    | inl (d, f) ↦
        let same : get_device_key up j s ≡ store_key j (ok d) s =
          key_miss up j s e ∙ ap (λ r. store_key j r s) f in
        ground (arith, same, Cache.get-set j id d.private_key s.keys_cache, bytes_eq_iff j id)
    | inr (x, f) ↦
        let same : get_device_key up j s ≡ store_key j (err x) s =
          key_miss up j s e ∙ ap (λ r. store_key j r s) f in
        ground (arith, same)
  ]
  | inr (k', e) ↦ ground (arith, key_hit up j s k' e)
]

module _ (from_hex : Bytes → Option Bytes) where
  call-keeps :
      (c : Call) (id : Bytes) (s : Server) (k : Bytes)
      → Cache.get id s.keys_cache ≡ some k
      → Cache.get id (call from_hex c s).keys_cache ≡ some k
  unfolding call insert_user update_user delete_user insert_device get_device_credentials
      update_device delete_device
  call-keeps (inserts_user up fresh user) id s k h = ground arith
  call-keeps (updates_user up user) id s k h = ground arith
  call-keeps (deletes_user up i) id s k h = ground arith
  call-keeps (inserts_device i up reads device) id s k h = ground arith
  call-keeps (reads_credentials up i) id s k h = ground arith
  call-keeps (reads_key up j) id s k h = reads_key-keeps up j id s k h
  call-keeps (updates_device up i device) id s k h = ground arith
  call-keeps (deletes_device up i) id s k h = ground arith

  calls-keeps :
      (cs : List Call) (id : Bytes) (s : Server) (k : Bytes)
      → Cache.get id s.keys_cache ≡ some k
      → Cache.get id (calls from_hex cs s).keys_cache ≡ some k
  unfolding calls
  calls-keeps [] id s k h = h
  calls-keeps (c ∷ cs) id s k h = calls-keeps cs id (call from_hex c s) k (call-keeps c id s k h)

  -- Once `GetDeviceKey` has returned a key, it returns that key for the same id after every
  -- history of calls of db.go, updates of the device and its deletion included, and whether or
  -- not the database answers: nothing takes an entry out of the cache of keys.
  pub get_device_key_stale :
      (up up' : Bool) (id : Bytes) (s : Server) (k : Bytes) (cs : List Call)
      → (get_device_key up id s).1 ≡ ok k
      → (get_device_key up' id (calls from_hex cs (get_device_key up id s).0)).1 ≡ ok k
  get_device_key_stale up up' id s k cs h =
      ap (λ r. r.1)
        (key_hit up' id _ k
          (calls-keeps cs id (get_device_key up id s).0 k (key_cached up id s k h)))

-- Every cached key is that of the device in the collection.
abbrev pub IsCoherent : Server → Type 0
IsCoherent s =
    (id k : Bytes)
    → Cache.get id s.keys_cache ≡ some k
    → (d : Device) × (get_device true id s ≡ ok d) × (d.private_key ≡ k)

abbrev pub key_of : Result Device → Result Bytes
key_of (ok d) = ok d.private_key
key_of (err e) = err e

set-eq_some :
    (id j v k : Bytes) (kc : Cache.SimpleCache Bytes)
    → bytes_eq id j ≡ true
    → Cache.get j (Cache.set id v kc) ≡ some k
    → v ≡ k
set-eq_some id j v k kc same h = ground (arith, Cache.get-set id j v kc)

store-IsCoherent :
    (id : Bytes) (s : Server) (d : Device)
    → IsCoherent s
    → get_device true id s ≡ ok d
    → IsCoherent (record s { keys_cache = Cache.set id d.private_key s.keys_cache })
unfolding get_device
store-IsCoherent id s d c e j k h = elim (Bool-cases (bytes_eq id j)) [
  | inl same ↦
      let id' : id ≡ j = (bytes_eq_iff id j).0 same in
      (d, rw (← id') e, set-eq_some id j d.private_key k s.keys_cache same h)
  | inr other ↦ c j k (ground (arith, Cache.get-set id j d.private_key s.keys_cache))
]

-- While the cache of keys agrees with the devices, it cannot be seen: `GetDeviceKey` returns the
-- key of the document that `GetDevice` finds, or its error, the devices stay as they are, and the
-- cache still agrees. The database answers.
pub get_device_key_transparent :
    (id : Bytes) (s : Server)
    → IsCoherent s
    → ((get_device_key true id s).1 ≡ key_of (get_device true id s))
      × ((get_device_key true id s).0.devices ≡ s.devices)
      × IsCoherent (get_device_key true id s).0
unfolding store_key
get_device_key_transparent id s c = elim (Option-cases (Cache.get id s.keys_cache)) [
  | inl e ↦ elim (Result-cases (get_device true id s)) [
    | inl (d, f) ↦
        let same : get_device_key true id s ≡ store_key id (ok d) s =
          key_miss true id s e ∙ ap (λ r. store_key id r s) f in
        rw (same, f) (refl, refl, store-IsCoherent id s d c f)
    | inr (x, f) ↦
        let same : get_device_key true id s ≡ store_key id (err x) s =
          key_miss true id s e ∙ ap (λ r. store_key id r s) f in
        rw (same, f) (refl, refl, c)
  ]
  | inr (k, e) ↦ let (d, f, p) = c id k e in rw (key_hit true id s k e, f) (ap ok (sym p), refl, c)
]

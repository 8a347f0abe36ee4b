-- ===== src/Backend/Db.antt =====
-- trackeroo-backend/src/internal/service/db.go: users and devices in MongoDB, with the caches of
-- keys and credentials. `up` says whether the database answers; ObjectIDFromHex is a parameter.
pub mod Caching
pub mod Deletion
use trackeroo.Base.{
  ◌≡◌, refl, ◌⊎◌, inl, inr, ℕ, Bool, true, false, not, Option, none, some, List, [], ◌∷◌, ◌++◌, map,
  Bytes, codes, bytes_eq, keep, pos, if◌then◌else◌,
}
use trackeroo.Backend.Model.{User, Device, DeviceCredentials, Time, zero_time, empty_status}
use trackeroo.Backend.Cache
use trackeroo.Backend.Server.{
  DocId, object_id, string_id, id_eq, id_text, UserDoc, DeviceDoc, Server,
}

pub data DbError : Type 0 where
  no_documents db_failed bad_object_id duplicate_key : DbError

pub data Result {ℓ} (A : Type ℓ) : Type ℓ where
  ok : A → Result A
  err : DbError → Result A

pub Result-cases {ℓ} :
    {A : Type ℓ} (r : Result A) → ((a : A) × (r ≡ ok a)) ⊎ ((e : DbError) × (r ≡ err e))
Result-cases (ok a) = inl (a, refl)
Result-cases (err e) = inr (e, refl)

module _ {ℓ} {A : Type ℓ} where
  -- the first document that a filter matches
  unfoldable pub find_first : (A → Bool) → List A → Option A
  find_first p [] = none
  find_first p (x ∷ xs) = if p x then some x else find_first p xs

  -- DeleteOne
  unfoldable pub delete_first : (A → Bool) → List A → List A
  delete_first p [] = []
  delete_first p (x ∷ xs) = if p x then xs else x ∷ delete_first p xs

  -- UpdateOne
  unfoldable pub update_first : (A → Bool) → (A → A) → List A → List A
  update_first p f [] = []
  update_first p f (x ∷ xs) = if p x then f x ∷ xs else x ∷ update_first p f xs

  unfoldable pub found : {B : Type ℓ} → (A → B) → Option A → Result B
  found f none = err no_documents
  found f (some a) = ok (f a)

abbrev pub user_has : DocId → UserDoc → Bool
user_has id d = id_eq d.key id

abbrev pub device_has : DocId → DeviceDoc → Bool
device_has id d = id_eq d.key id

unfoldable pub decode_user : UserDoc → User
decode_user d = record d.user { id = id_text d.key }

unfoldable pub decode_device : DeviceDoc → Device
decode_device d = record d.device { id = id_text d.key }

-- The key that the server gives where the user has no id of its own.
unfoldable pub user_key : Bytes → Bytes → DocId
user_key [] fresh = object_id fresh
user_key (c ∷ s) fresh = string_id (c ∷ s)

unfoldable pub insert_user : Bool → Bytes → User → Server → Server × Option DbError
unfolding user_key find_first
insert_user up fresh user s =
    let doc : UserDoc = record { key = user_key user.id fresh; user = user } in
    if up
    then elim (find_first (user_has doc.key) s.users) [
      | some _ ↦ (s, some duplicate_key)
      | none ↦ (record s { users = s.users ++ doc ∷ [] }, none)
    ]
    else (s, some db_failed)

unfoldable pub get_user : (Bytes → Option Bytes) → Bool → Bytes → Server → Result User
unfolding find_first found decode_user
get_user from_hex up id s = elim (from_hex id) [
  | none ↦ err bad_object_id
  | some h ↦
      if up then found decode_user (find_first (user_has (object_id h)) s.users) else err db_failed
]

unfoldable pub get_user_by_name : Bool → Bytes → Server → Result User
unfolding find_first found decode_user
get_user_by_name up name s =
    if up
    then found decode_user (find_first (λ d. bytes_eq d.user.username name) s.users)
    else err db_failed

unfoldable pub get_users : Bool → Server → Result (List User)
unfolding decode_user
get_users up s = if up then ok (map decode_user s.users) else err db_failed

-- The filter compares `_id` with a text.
unfoldable pub update_user : Bool → User → Server → Server × Option DbError
unfolding update_first
update_user up user s =
    if up
    then (
      record s {
        users = update_first (user_has (string_id user.id)) (λ d. record d { user = user }) s.users;
      },
      none,
    )
    else (s, some db_failed)

unfoldable pub delete_user : Bool → Bytes → Server → Server × Option DbError
unfolding delete_first
delete_user up id s =
    if up
    then (record s { users = delete_first (user_has (string_id id)) s.users }, none)
    else (s, some db_failed)

unfoldable pub get_device : Bool → Bytes → Server → Result Device
unfolding find_first found decode_device
get_device up id s =
    if up
    then found decode_device (find_first (device_has (string_id id)) s.devices)
    else err db_failed

-- The first argument is the id that `GenDeviceID` made, and `_id` is unique. `reads` says whether the
-- database answers the `GetDevice` after the insertion: where it does not, the device is stored and
-- an error is returned.
unfoldable pub insert_device : Bytes → Bool → Bool → Device → Server → Server × Result Device
unfolding get_device
insert_device id up reads device s =
    if up
    then elim (find_first (device_has (string_id id)) s.devices) [
      | some _ ↦ (s, err duplicate_key)
      | none ↦
          let doc : DeviceDoc = record { key = string_id id; device = record device { id = id } } in
          let s' = record s { devices = s.devices ++ doc ∷ [] } in (s', get_device reads id s')
    ]
    else (s, err db_failed)

-- `hex` is the print of the eight random bytes.
unfoldable pub gen_device_id : Bytes → Bytes
gen_device_id hex = codes "trk-" ++ hex

unfoldable pub credentials_of : Device → DeviceCredentials
credentials_of d = record {
  id = d.id;
  name = d.name;
  device_type = d.device_type;
  private_key = d.private_key;
  mqtt_host = [];
  mqtt_port = pos 0;
  mqtt_mode = [];
  ca_cert = [];
}

store_credentials : Bytes → Result Device → Server → Server × Result DeviceCredentials
unfolding credentials_of
store_credentials id (err e) s = (s, err e)
store_credentials id (ok d) s = (
  record s { credentials_cache = Cache.set id (credentials_of d) s.credentials_cache },
  ok (credentials_of d),
)

unfoldable pub get_device_credentials : Bool → Bytes → Server → Server × Result DeviceCredentials
unfolding store_credentials
get_device_credentials up id s = elim (Cache.get id s.credentials_cache) [
  | some creds ↦ (s, ok creds)
  | none ↦ store_credentials id (get_device up id s) s
]

store_key : Bytes → Result Device → Server → Server × Result Bytes
store_key id (err e) s = (s, err e)
store_key id (ok d) s =
    (record s { keys_cache = Cache.set id d.private_key s.keys_cache }, ok d.private_key)

unfoldable pub get_device_key : Bool → Bytes → Server → Server × Result Bytes
unfolding store_key
get_device_key up id s = elim (Cache.get id s.keys_cache) [
  | some key ↦ (s, ok key)
  | none ↦ store_key id (get_device up id s) s
]

unfoldable pub get_devices : Bool → Server → Result (List Device)
unfolding decode_device
get_devices up s = if up then ok (map decode_device s.devices) else err db_failed

-- The cache is invalidated whether or not the update went through.
unfoldable pub update_device : Bool → Bytes → Device → Server → Server × Option DbError
unfolding update_first
update_device up id device s = (
  record s {
    devices =
        if up
        then update_first (device_has (string_id id)) (λ d. record d { device = device }) s.devices
        else s.devices;
    devices_cache = Cache.invalidate id s.devices_cache;
  },
  if up then none else some db_failed,
)

unfoldable pub delete_device :
    (Bytes → Option Bytes) → Bool → Bytes → Server → Server × Option DbError
unfolding delete_first
delete_device from_hex up id s = elim (from_hex id) [
  | none ↦ (s, some bad_object_id)
  | some h ↦ (
    record s {
      devices = if up then delete_first (device_has (object_id h)) s.devices else s.devices;
      devices_cache = Cache.invalidate id s.devices_cache;
    },
    none,
  )
]

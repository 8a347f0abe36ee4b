-- ===== src/Backend/Connectivity.antt =====
-- trackeroo-backend/src/internal/service/connectivity.go: who is connected, in Redis or in a
-- SimpleCache. Redis is a map of hashes; the Boolean arguments say which of its calls answer.
pub mod History
pub mod Refinement
pub mod Listing
use mathlib.Core.List.{foldl}
use trackeroo.Base.{
  ◌≡◌, refl, Bool, true, false, not, Option, none, some, List, [], ◌∷◌, Bytes, codes, bytes_eq,
  Dict, lookup, insert, ◌>>=◌, if◌then◌else◌, ℤ, pos,
}
use trackeroo.Base.Decimal.{format_int, parse_int, format_bool, parse_bool}
use trackeroo.Backend.Model.{Time, DeviceStatus, empty_status}
use trackeroo.Backend.Cache.{SimpleCache, new_simple_cache}
use trackeroo.Backend.Cache

pub record Connectivity : Type 0 where
  pub redis : Dict (Dict Bytes)
  pub use_fallback : Bool
  pub fallback : SimpleCache DeviceStatus

-- The program calls it once, before anything else here; the argument says whether Redis answers.
unfoldable pub init_connectivity_cache : Bool → Dict (Dict Bytes) → Connectivity
unfolding new_simple_cache
init_connectivity_cache ping redis = record {
  redis = redis;
  use_fallback = not ping;
  fallback = new_simple_cache;
}

-- `time.Unix(s, 0)`
abbrev pub unix : ℤ → Time
unix s = record { sec = s; nsec = 0 }

abbrev pub last_connection_key : Bytes
last_connection_key = codes "last_connection"

abbrev pub last_disconnection_key : Bytes
last_disconnection_key = codes "last_disconnection"

-- An index of a Go map: the empty text where the key is missing.
unfoldable pub text_or_empty : Option Bytes → Bytes
text_or_empty none = []
text_or_empty (some s) = s

unfoldable pub map_to_struct : Dict Bytes → Option DeviceStatus
unfolding lookup text_or_empty parse_bool parse_int
map_to_struct m = do
  connected ← parse_bool (text_or_empty (lookup (codes "connected") m))
  last_conn ← parse_int (text_or_empty (lookup last_connection_key m))
  last_disconn ← parse_int (text_or_empty (lookup last_disconnection_key m))
  some (record {
    connected = connected;
    last_connection = unix last_conn;
    last_disconnection = unix last_disconn;
    last_ip = text_or_empty (lookup (codes "last_ip") m);
  })

unfoldable pub struct_to_map : DeviceStatus → Dict Bytes
unfolding format_bool format_int
struct_to_map status =
    (codes "connected", format_bool status.connected)
    ∷ (last_connection_key, format_int status.last_connection.sec)
    ∷ (last_disconnection_key, format_int status.last_disconnection.sec)
    ∷ (codes "last_ip", status.last_ip)
    ∷ []

-- A key that Redis does not have is an empty hash.
unfoldable pub hash_of : Option (Dict Bytes) → Dict Bytes
hash_of none = []
hash_of (some h) = h

-- HGET, which fails on a missing field; both errors are errors to the caller
unfoldable pub get_last_redis_key : Bool → Dict (Dict Bytes) → Bytes → Bytes → Option Bytes
unfolding lookup hash_of
get_last_redis_key up rdb dev_id key = if up then lookup key (hash_of (lookup dev_id rdb)) else none

-- HSET with several fields
unfoldable pub hset : Bytes → Dict Bytes → Dict (Dict Bytes) → Dict (Dict Bytes)
unfolding insert lookup hash_of
hset key fields rdb =
    insert key (foldl (λ h f. insert f.0 f.1 h) (hash_of (lookup key rdb)) fields) rdb

-- the status before what is known of the device is looked at
unfoldable pub initial_status : Bytes → Time → Bool → DeviceStatus
initial_status ip timestamp connected = record {
  connected = connected;
  last_connection = if connected then timestamp else unix (pos 0);
  last_disconnection = if connected then unix (pos 0) else timestamp;
  last_ip = ip;
}

-- keeps the time of the event that this one is not
unfoldable pub keep_other : Bool → Option Time → DeviceStatus → DeviceStatus
keep_other connected none status = status
keep_other true (some t) status = record status { last_disconnection = t }
keep_other false (some t) status = record status { last_connection = t }

unfoldable pub other_time : Bool → DeviceStatus → Time
other_time connected s = if connected then s.last_disconnection else s.last_connection

-- `hget` and `hset_up` say which of the two calls of Redis answer.
unfoldable pub set_device_status :
    Bool → Bool → Bytes → Bytes → Time → Bool → Connectivity → Connectivity
unfolding initial_status keep_other get_last_redis_key hset struct_to_map other_time Cache.get
    Cache.set
set_device_status hget hset_up dev_id ip timestamp connected c =
    let status = initial_status ip timestamp connected in
    if c.use_fallback
    then (let last = Cache.get dev_id c.fallback >>= (λ s. some (other_time connected s)) in
        record c { fallback = Cache.set dev_id (keep_other connected last status) c.fallback })
    else (let key = if connected then last_disconnection_key else last_connection_key in
        let last =
          get_last_redis_key hget c.redis dev_id key >>= parse_int >>= (λ i. some (unix i)) in
        let fields = struct_to_map (keep_other connected last status) in
        record c { redis = if hset_up then hset dev_id fields c.redis else c.redis })

-- Where it fails the source returns the empty status, which no caller looks at.
unfoldable pub get_device_status : Bool → Bytes → Connectivity → Option DeviceStatus
unfolding map_to_struct hash_of lookup Cache.get
get_device_status up dev_id c =
    if c.use_fallback
    then Cache.get dev_id c.fallback
    else if up
    then map_to_struct (hash_of (lookup dev_id c.redis))
    else none

unfoldable pub or_empty : Option DeviceStatus → DeviceStatus
or_empty none = empty_status
or_empty (some s) = s

-- one answer of the pipeline: the status and whether it is an error
unfoldable pub piped : Dict Bytes → DeviceStatus × Bool
unfolding map_to_struct or_empty
piped [] = (empty_status, false)
piped (f ∷ d) =
    let parsed = map_to_struct (f ∷ d) in
    (or_empty parsed, elim parsed [ none ↦ true | some _ ↦ false ])

-- the loop over the answers of the pipeline
unfoldable pub collect :
    Dict (Dict Bytes) → List Bytes → Dict DeviceStatus × Bool → Dict DeviceStatus × Bool
unfolding piped insert lookup hash_of
collect rdb [] acc = acc
collect rdb (id ∷ ids) (result, failed) =
    let (status, bad) = piped (hash_of (lookup id rdb)) in
    collect rdb ids (insert id status result, if failed then true else bad)

-- the loop over the fallback: both what is there and what is not become the empty status
unfoldable pub collect_fallback :
    SimpleCache DeviceStatus → List Bytes → Dict DeviceStatus → Dict DeviceStatus
unfolding insert Cache.get
collect_fallback fbc [] result = result
collect_fallback fbc (id ∷ ids) result = collect_fallback fbc ids (elim (Cache.get id fbc) [
  | some _ ↦ insert id empty_status result
  | none ↦ insert id empty_status result
])

-- The statuses, and whether there was an error. A pipeline that fails has no answers.
unfoldable pub get_devices_status : Bool → List Bytes → Connectivity → Dict DeviceStatus × Bool
unfolding collect collect_fallback
get_devices_status exec dev_ids c =
    if c.use_fallback
    then (collect_fallback c.fallback dev_ids [], false)
    else collect (if exec then c.redis else []) dev_ids ([], not exec)

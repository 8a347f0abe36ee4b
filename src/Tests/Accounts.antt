-- ===== src/Tests/Accounts.antt =====
-- Tokens, keys and documents of one user and one device.
use trackeroo.Base.{
  ◌≡◌, ◌≢◌, ◌↔◌, refl, true, false, Option, none, some, List, [], ◌∷◌, arith, codes, Bytes,
  bytes_eq, lookup, length, if◌then◌else◌, ◌==◌,
}
use trackeroo.Base.Base64.{encode64}
use trackeroo.Backend.Model.{User, Device, zero_time, empty_status}
use trackeroo.Backend.Cache
use trackeroo.Backend.Token.{
  JwtLib, Host, contents, Token, hmac, str, validate_user_jwt, gen_private_key,
}
use trackeroo.Backend.Token.Acceptance.{Carries, validate_user_jwt_iff}
use trackeroo.Backend.Server.{id_eq, object_id, string_id, Server}
use trackeroo.Backend.Db.{
  ok, bad_object_id, get_device, get_device_key, delete_device, gen_device_id,
}
use trackeroo.Backend.Db.Caching.{
  Call, updates_device, deletes_device, calls, get_device_key_stale, IsCoherent, key_of,
  get_device_key_transparent,
}
use trackeroo.Backend.Db.Deletion.{delete_device_miss}

-- A token is verified by the text of its key in front of the name that it carries.
abbrev pub toy_claims : Bytes → Token
toy_claims name = record {
  valid = true;
  claims = (codes "role", str (codes "admin")) ∷ (codes "sub", str name) ∷ [];
}

abbrev pub toy_jwt : JwtLib
toy_jwt = record {
  parse = λ text key. elim (key hmac) [
    | none ↦ none
    | some k ↦ if bytes_eq text (codes "signed") then some (toy_claims (codes "trk-01")) else none
  ];
  sign = λ key claims. none;
}

abbrev pub toy_host : Host
toy_host = record { file = λ path. contents (codes "secret"); env = λ name. codes "" }

validate_user_jwt_iff_example :
    ((validate_user_jwt toy_jwt toy_host (codes "Bearer signed") (codes "admin")).0 ≡ true)
    ↔ Carries toy_jwt toy_host (codes "Bearer signed") (codes "admin")
validate_user_jwt_iff_example =
    validate_user_jwt_iff toy_jwt toy_host (codes "Bearer signed") (codes "admin")

key_of_ab : gen_private_key (some (codes "ab")) ≡ some (codes "YWI=")
unfolding gen_private_key encode64
key_of_ab = refl

abbrev pub alice : User
alice = record {
  id = codes "7f";
  username = codes "alice";
  role = codes "admin";
  password_hash = codes "hash";
  last_login = zero_time;
  session_token = codes "";
  issued_at = zero_time;
  expires_at = zero_time;
}

abbrev pub tracker : Device
tracker = record {
  id = codes "trk-01";
  name = codes "van";
  device_type = codes "gps";
  status = empty_status;
  private_key = codes "YWI=";
  created_at = zero_time;
}

abbrev pub server : Server
server = record {
  users = record { key = object_id (codes "7f"); user = alice } ∷ [];
  devices = record { key = string_id (codes "trk-01"); device = tracker } ∷ [];
  keys_cache = record { items = [] };
  devices_cache = record { items = [] };
  credentials_cache = record { items = [] };
  is_user_cache = record { items = [] };
  queues = [];
  connectivity = record { redis = []; use_fallback = false; fallback = record { items = [] } };
}

-- ObjectIDFromHex, which here takes every text of 24 digits
from_hex : Bytes → Option Bytes
from_hex t = if length t == 24 then some t else none

from_hex_other : (t : Bytes) → length t ≢ 24 → from_hex t ≡ none
unfolding from_hex
from_hex_other t n = ground arith

delete_device_miss_example :
    ((delete_device from_hex true (codes "trk-01") server).0.devices ≡ server.devices)
    × (delete_device from_hex true (gen_device_id (codes "0123456789abcdef")) server
        ≡ (server, some bad_object_id))
delete_device_miss_example =
    delete_device_miss from_hex server true (codes "trk-01") (codes "0123456789abcdef")
      from_hex_other (tt, tt) refl

abbrev rotation : List Call
rotation =
    updates_device true (codes "trk-01") (record tracker { private_key = codes "bmV3" })
    ∷ deletes_device true (codes "trk-01")
    ∷ []

tracker_key : (get_device_key true (codes "trk-01") server).1 ≡ ok (codes "YWI=")
unfolding get_device_key get_device Cache.get lookup id_eq bytes_eq
tracker_key = refl

get_device_key_stale_example :
    (get_device_key false
      (codes "trk-01")
      (calls from_hex rotation (get_device_key true (codes "trk-01") server).0)).1
    ≡ ok (codes "YWI=")
get_device_key_stale_example =
    get_device_key_stale from_hex true false (codes "trk-01") server (codes "YWI=") rotation
      tracker_key

server-IsCoherent : IsCoherent server
unfolding Cache.get lookup
server-IsCoherent id k e = absurd (nothing e)
  where
    nothing : none ≡ some k → ⊥
    nothing f = cc

get_device_key_transparent_example :
    ((get_device_key true (codes "trk-01") server).1
      ≡ key_of (get_device true (codes "trk-01") server))
    × ((get_device_key true (codes "trk-01") server).0.devices ≡ server.devices)
    × IsCoherent (get_device_key true (codes "trk-01") server).0
get_device_key_transparent_example =
    get_device_key_transparent (codes "trk-01") server server-IsCoherent

-- ===== src/Backend/Devices.antt =====
-- trackeroo-backend/src/internal/handler/devices.go: the handlers for devices. The number of a call
-- of the database is the argument of `up`; Redis answers as `redis` says.
pub mod Creation
pub mod Admission
use trackeroo.Base.{
  ℕ, ◌+◌, ◌-◌, leb, ◌&&◌, Bool, true, false, not, Option, none, some, List, [], ◌∷◌, map, Bytes,
  codes, bytes_eq, lookup, pos, if◌then◌else◌, Outcome, returned,
}
use trackeroo.Backend.Model.{
  Time, Device, DeviceCredentials, DeviceCreation, DeviceStatus, empty_status,
}
use trackeroo.Backend.Http.{
  Handler, Request, Writer, write, write_header, set_header, http_error, json_error, json_device,
  json_devices, json_credentials, json_device_credentials, content_type, application_json,
}
use trackeroo.Backend.Config.{Config}
use trackeroo.Backend.Token.{gen_private_key}
use trackeroo.Backend.Server.{Server}
use trackeroo.Backend.Db.{DbError, Result, ok, err, insert_device, gen_device_id}
use trackeroo.Backend.Db
use trackeroo.Backend.Connectivity.{get_device_status, get_devices_status}
use trackeroo.Backend.Users.{not_implemented}

-- What the handlers read of the program's surroundings: the JSON decoder, the clock, the random
-- source (the bytes of a key, the hex digits of an id), the file of the certificate, the
-- configuration and ObjectIDFromHex.
pub record Environment : Type 0 where
  pub decode : Option Bytes → Option DeviceCreation
  pub decode_error : Bytes
  pub now : Time
  pub random : Option Bytes
  pub random_error : Bytes
  pub hex : Bytes
  pub ca_certificate : Option Bytes
  pub file_error : Bytes
  pub text_of : DbError → Bytes
  pub cfg : Config
  pub from_hex : Bytes → Option Bytes
  pub up : ℕ → Bool
  pub redis : Bool

abbrev pub Ending : Type 0
Ending = (Server × Writer) × Outcome (Unit {0})

-- an error in JSON under a status
unfoldable pub fail : ℕ → Bytes → Server → Writer → Ending
fail status text s w = ((s, write (json_error text) (write_header status w)), returned tt)

unfoldable pub new_device : Environment → DeviceCreation → Bytes → Device
new_device x req key = record {
  id = [];
  name = req.name;
  device_type = req.device_type;
  status = empty_status;
  private_key = key;
  created_at = x.now;
}

unfoldable pub created : Environment → Server × Result Device → Writer → Ending
unfolding fail
created x (s, err e) w = fail 500 (x.text_of e) s w
created x (s, ok dev) w = ((s, write (json_device dev) (write_header 201 w)), returned tt)

unfoldable pub create_device : Environment → Handler Server
unfolding fail gen_private_key created new_device
create_device x r (s, w) = elim (x.decode r.body) [
  | none ↦ fail 400 x.decode_error s w
  | some req ↦ elim (gen_private_key x.random) [
    | none ↦ fail 500 x.random_error s w
    | some key ↦
        created x (insert_device (gen_device_id x.hex) (x.up 0) (x.up 1) (new_device x req key) s) w
  ]
]

unfoldable pub with_status : Option DeviceStatus → Device → Device
with_status none d = d
with_status (some status) d = record d { status = status }

unfoldable pub get_device : Environment → Handler Server
unfolding with_status
get_device x r (s, w) = elim (Db.get_device (x.up 0) (r.path_value (codes "id")) s) [
  | err e ↦ ((s, http_error (x.text_of e) 404 w), returned tt)
  | ok device ↦ (
    (
      s,
      write (json_device (with_status (get_device_status x.redis device.id s.connectivity) device))
          (set_header content_type application_json w),
    ),
    returned tt,
  )
]

unfoldable pub get_devices : Environment → Handler Server
unfolding fail with_status
get_devices x r (s, w) = elim (Db.get_devices (x.up 0) s) [
  | err e ↦ fail 500 (x.text_of e) s w
  | ok devices ↦
      let (statuses, failed) =
        get_devices_status x.redis (map (λ d. Device.id d) devices) s.connectivity in
      let shown =
        if failed
        then devices
        else map (λ d. with_status (lookup (Device.id d) statuses) d) devices in
      ((s, write (json_devices shown) (set_header content_type application_json w)), returned tt)
]

-- `strings.ToLower` on ASCII
unfoldable pub to_lower : Bytes → Bytes
to_lower s = map (λ c. if leb b'A' c && leb c b'Z' then c + 32 else c) s

unfoldable pub is_secure : Request → Bool
unfolding to_lower bytes_eq
is_secure r = bytes_eq (to_lower (r.query (codes "secure"))) (codes "true")

-- the fields of the broker in a device's credentials, where `ca` is what the file holds
unfoldable pub reached_at : Config → Bool → Bytes → DeviceCredentials → DeviceCredentials
reached_at cfg secure ca creds = record creds {
  mqtt_host = cfg.mqtt_host;
  mqtt_port = if secure then cfg.mqtts_port else cfg.mqtt_port;
  mqtt_mode = if secure then codes "secure" else codes "insecure";
  ca_cert = if secure then ca else creds.ca_cert;
}

abbrev pub zero_credentials : DeviceCredentials
zero_credentials = record {
  id = [];
  name = [];
  device_type = [];
  private_key = [];
  mqtt_host = [];
  mqtt_port = pos 0;
  mqtt_mode = [];
  ca_cert = [];
}

-- `credentials[i], _ = GetDeviceCredentials(…)`
unfoldable pub or_zero_credentials : Result DeviceCredentials → DeviceCredentials
or_zero_credentials (err e) = zero_credentials
or_zero_credentials (ok creds) = creds

-- the loop of `GetCredentials`; the first argument is the number of the next call
unfoldable pub all_credentials :
    ℕ → Environment → Bool → Bytes → List Device → Server → Server × List DeviceCredentials
unfolding or_zero_credentials reached_at
all_credentials n x secure ca [] s = (s, [])
all_credentials n x secure ca (device ∷ devices) s =
    let (s', got) = Db.get_device_credentials (x.up n) device.id s in
    let (s'', rest) = all_credentials (n + 1) x secure ca devices s' in
    (
      s'',
      record (reached_at x.cfg secure ca (or_zero_credentials got)) {
        device_type = device.device_type;
      }
          ∷ rest,
    )

-- after the certificate is read, where it is asked for
unfoldable pub list_credentials : Environment → Bool → Bytes → Server → Writer → Ending
unfolding fail all_credentials
list_credentials x secure ca s w = elim (Db.get_devices (x.up 0) s) [
  | err e ↦ fail 500 (x.text_of e) s w
  | ok devices ↦
      let (s', creds) = all_credentials 1 x secure ca devices s in
      (
        (s', write (json_credentials creds) (set_header content_type application_json w)),
        returned tt,
      )
]

unfoldable pub get_credentials : Environment → Handler Server
unfolding fail list_credentials is_secure
get_credentials x r (s, w) =
    if is_secure r
    then elim x.ca_certificate [
      | none ↦ fail 500 x.file_error s w
      | some ca ↦ list_credentials x true ca s w
    ]
    else list_credentials x false [] s w

-- after the certificate is read: the type comes from the document
unfoldable pub typed : Environment → Bytes → DeviceCredentials → Server → Writer → Ending
unfolding fail
typed x id creds s w = elim (Db.get_device (x.up 1) id s) [
  | err e ↦ fail 404 (x.text_of e) s w
  | ok device ↦ (
    (
      s,
      write (json_device_credentials (record creds { device_type = device.device_type }))
          (set_header content_type application_json w),
    ),
    returned tt,
  )
]

unfoldable pub one_credentials :
    Environment → Bool → Bytes → Server × Result DeviceCredentials → Writer → Ending
unfolding fail typed reached_at
one_credentials x secure id (s, err e) w = fail 404 (x.text_of e) s w
one_credentials x secure id (s, ok creds) w =
    if secure
    then elim x.ca_certificate [
      | none ↦ fail 500 x.file_error s w
      | some ca ↦ typed x id (reached_at x.cfg true ca creds) s w
    ]
    else typed x id (reached_at x.cfg false [] creds) s w

unfoldable pub get_device_credentials : Environment → Handler Server
unfolding one_credentials is_secure
get_device_credentials x r (s, w) =
    let id = r.path_value (codes "id") in
    one_credentials x (is_secure r) id (Db.get_device_credentials (x.up 0) id s) w

unfoldable pub update_device : Handler Server
unfolding not_implemented
update_device r sw = not_implemented r sw

unfoldable pub removed : Environment → Server × Option DbError → Writer → Ending
unfolding fail
removed x (s, none) w = ((s, write_header 204 w), returned tt)
removed x (s, some e) w = fail 500 (x.text_of e) s w

unfoldable pub delete_device : Environment → Handler Server
unfolding removed
delete_device x r (s, w) =
    removed x (Db.delete_device x.from_hex (x.up 0) (r.path_value (codes "id")) s) w

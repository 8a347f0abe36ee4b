-- ===== src/Backend/Model.antt =====
-- trackeroo-backend/src/internal/model: the data of the API.
use trackeroo.Base.{ℕ, Bool, false, Bytes, ℤ, negsuc, codes}

-- time.Time as an instant: seconds since 1970 and nanoseconds within the second
pub record Time : Type 0 where
  pub sec : ℤ
  pub nsec : ℕ

-- the zero value, 1 January of the year 1
abbrev pub zero_time : Time
zero_time = record { sec = negsuc 62135596799; nsec = 0 }

pub record DeviceStatus : Type 0 where
  pub connected : Bool
  pub last_connection : Time
  pub last_disconnection : Time
  pub last_ip : Bytes

abbrev pub empty_status : DeviceStatus
empty_status = record {
  connected = false;
  last_connection = zero_time;
  last_disconnection = zero_time;
  last_ip = codes "";
}

pub record Device : Type 0 where
  pub id : Bytes
  pub name : Bytes
  pub device_type : Bytes
  pub status : DeviceStatus
  pub private_key : Bytes
  pub created_at : Time

pub record DeviceCredentials : Type 0 where
  pub id : Bytes
  pub name : Bytes
  pub device_type : Bytes
  pub private_key : Bytes
  pub mqtt_host : Bytes
  pub mqtt_port : ℤ
  pub mqtt_mode : Bytes
  pub ca_cert : Bytes

pub record User : Type 0 where
  pub id : Bytes
  pub username : Bytes
  pub role : Bytes
  pub password_hash : Bytes
  pub last_login : Time
  pub session_token : Bytes
  pub issued_at : Time
  pub expires_at : Time

pub record Login : Type 0 where
  pub username : Bytes
  pub password : Bytes

pub record MqttTopicAuthRequest : Type 0 where
  pub username : Bytes
  pub vhost : Bytes
  pub resource : Bytes
  pub topic : Bytes
  pub name : Bytes
  pub permission : Bytes

pub record DeviceCreation : Type 0 where
  pub name : Bytes
  pub device_type : Bytes

-- ===== src/Backend/Server.antt =====
-- The state behind the handlers: the MongoDB collections, the caches of service/db.go and
-- handler/mqttauth.go, the queues of service/pq.go and the status store of service/connectivity.go.
use trackeroo.Base.{Bool, false, List, Bytes, bytes_eq}
use trackeroo.Backend.Model.{User, Device, DeviceCredentials}
use trackeroo.Backend.Cache.{SimpleCache}
use trackeroo.Backend.Pq.{Queues}
use trackeroo.Backend.Connectivity.{Connectivity}

-- The value of `_id`: the server gives a document that has none an ObjectID (here its 24 hex
-- digits), which is another value than every text.
pub data DocId : Type 0 where
  object_id : Bytes → DocId
  string_id : Bytes → DocId

unfoldable pub id_eq : DocId → DocId → Bool
id_eq (object_id a) (object_id b) = bytes_eq a b
id_eq (string_id a) (string_id b) = bytes_eq a b
id_eq _ _ = false

-- What `Decode` puts into a field of type `string`.
unfoldable pub id_text : DocId → Bytes
id_text (object_id h) = h
id_text (string_id s) = s

pub record UserDoc : Type 0 where
  pub key : DocId
  pub user : User

pub record DeviceDoc : Type 0 where
  pub key : DocId
  pub device : Device

pub record Server : Type 0 where
  pub users : List UserDoc
  pub devices : List DeviceDoc
  pub keys_cache : SimpleCache Bytes
  pub devices_cache : SimpleCache Device
  pub credentials_cache : SimpleCache DeviceCredentials
  pub is_user_cache : SimpleCache Bool
  pub queues : Queues
  pub connectivity : Connectivity

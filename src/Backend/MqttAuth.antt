-- ===== src/Backend/MqttAuth.antt =====
-- trackeroo-backend/src/internal/handler/mqttauth.go, the HTTP backend of RabbitMQ's
-- authentication, and service/login.go. `up n` says whether the database answers the n-th query
-- of the handler; `matches` is bcrypt's comparison of a hash with a password.
pub mod Users
pub mod Topics
use trackeroo.Base.{
  ℕ, Bool, true, false, not, ◌&&◌, ◌||◌, Option, none, some, List, [], ◌∷◌, ◌++◌, Bytes, codes,
  bytes_eq, contains, if◌then◌else◌, Outcome, returned, Dict,
}
use trackeroo.Backend.Http.{Handler, Request, Writer, write, write_header, text, http_error}
use trackeroo.Backend.Model.{Login, MqttTopicAuthRequest, User}
use trackeroo.Backend.Cache
use trackeroo.Backend.Token.{JwtLib, validate_device_jwt, is_refused}
use trackeroo.Backend.Server.{Server}
use trackeroo.Backend.Db.{DbError, no_documents, Result, ok, err, get_user_by_name, get_device_key}

abbrev pub Reply : Type 0
Reply = (Server × Writer) × Outcome (Unit {0})

abbrev pub say : Server → Writer → Bytes → Reply
say s w verdict = ((s, write (text verdict) w), returned tt)

abbrev pub allow : Bytes
allow = codes "allow"

abbrev pub allow_administrator : Bytes
allow_administrator = codes "allow administrator"

abbrev pub deny : Bytes
deny = codes "deny"

abbrev pub is_empty : Bytes → Bool
is_empty [] = true
is_empty (_ ∷ _) = false

unfoldable pub password_matches : (Bytes → Bytes → Bool) → Result User → Bytes → Bool
password_matches matches (err e) password = false
password_matches matches (ok user) password = matches user.password_hash password

-- service/login.go
unfoldable pub validate_login : (Bytes → Bytes → Bool) → Bool → Login → Server → Bool
unfolding password_matches
validate_login matches up login s =
    if is_empty login.username || is_empty login.password
    then false
    else password_matches matches (get_user_by_name up login.username s) login.password

-- after `GetDeviceKey`
device_auth : JwtLib → Login → Server × Result Bytes → Writer → Reply
device_auth j form (s, err e) w = say s w deny
device_auth j form (s, ok key) w =
    if is_refused form.username (validate_device_jwt j key form.password)
    then say s w deny
    else say s w allow

-- after `GetUserByName`
named_auth :
    JwtLib → (Bytes → Bytes → Bool) → (ℕ → Bool) → Login → Result User → Server → Writer → Reply
unfolding device_auth validate_login
named_auth j matches up form (ok user) s w =
    if not (validate_login matches (up 1) form s) then say s w deny else say s w allow_administrator
named_auth j matches up form (err e) s w =
    device_auth j form (get_device_key (up 1) form.username s) w

form_auth : JwtLib → (Bytes → Bytes → Bool) → (ℕ → Bool) → Login → Server → Writer → Reply
unfolding named_auth
form_auth j matches up form s w =
    if is_empty form.username || is_empty form.password
    then say s w deny
    else named_auth j matches up form (get_user_by_name (up 0) form.username s) s w

unfoldable pub user_auth : JwtLib → (Bytes → Bytes → Bool) → (ℕ → Bool) → Handler Server
unfolding form_auth
user_auth j matches up r (s, w) = elim r.form [
  | none ↦ ((s, http_error (codes "Cannot parse form") 400 (write_header 200 w)), returned tt)
  | some f ↦
      form_auth j matches up
        (record { username = f (codes "username"); password = f (codes "password") }) s
        (write_header 200 w)
]

topic_verdict : MqttTopicAuthRequest → Bool → Server → Writer → Reply
topic_verdict form is_user s w =
    if is_user
    then say s w allow
    else (if contains form.topic form.username then say s w allow else say s w deny)

remember : MqttTopicAuthRequest → Bool → Server → Server
remember form v s = record s { is_user_cache = Cache.set form.username v s.is_user_cache }

-- the `switch` on the error of `GetUserByName`; on an error of another kind nothing is written
lookup_auth : MqttTopicAuthRequest → Result User → Server → Writer → Reply
unfolding topic_verdict remember
lookup_auth form (ok user) s w = topic_verdict form true (remember form true s) w
lookup_auth form (err no_documents) s w = topic_verdict form false (remember form false s) w
lookup_auth form (err e) s w = ((s, w), returned tt)

form_topic_auth : Bool → MqttTopicAuthRequest → Server → Writer → Reply
unfolding lookup_auth
form_topic_auth up form s w = elim (Cache.get form.username s.is_user_cache) [
  | some is_user ↦ topic_verdict form is_user s w
  | none ↦ lookup_auth form (get_user_by_name up form.username s) s w
]

abbrev pub topic_form : (Bytes → Bytes) → MqttTopicAuthRequest
topic_form f = record {
  username = f (codes "username");
  vhost = f (codes "vhost");
  resource = f (codes "resource");
  topic = f (codes "routing_key");
  name = f (codes "name");
  permission = f (codes "permission");
}

unfoldable pub topic_auth : Bool → Handler Server
unfolding form_topic_auth
topic_auth up r (s, w) = elim r.form [
  | none ↦ ((s, http_error (codes "Cannot parse form") 400 (write_header 200 w)), returned tt)
  | some f ↦ form_topic_auth up (topic_form f) s (write_header 200 w)
]

unfoldable pub resource_auth : Handler Server
resource_auth r (s, w) = say s (write_header 200 w) allow

unfoldable pub vhost_auth : Handler Server
vhost_auth r (s, w) = say s (write_header 200 w) allow

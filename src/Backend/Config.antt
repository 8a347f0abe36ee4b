-- ===== src/Backend/Config.antt =====
-- trackeroo-backend/src/internal/config/config.go: the configuration from the environment. `none`
-- is the end of the program: `logger.Fatal` exits.
use trackeroo.Base.{Bytes, codes, Option, none, some, ◌∷◌, [], ◌>>=◌, ℤ}
use trackeroo.Base.Decimal.{parse_int}

pub record Config : Type 0 where
  pub mongo_uri : Bytes
  pub log_level : Bytes
  pub mqtt_host : Bytes
  pub mqtt_port : ℤ
  pub mqtts_port : ℤ

-- a variable that has to be set
unfoldable pub required : Bytes → Option Bytes
required [] = none
required (c ∷ s) = some (c ∷ s)

-- `env` is `os.Getenv`, which gives the empty text for what is not set. `Atoi` is `ParseInt` at 64
-- bits.
unfoldable pub load_config : (Bytes → Bytes) → Option Config
unfolding required parse_int
load_config env = do
  mongo_uri ← required (env (codes "MONGO_URI"))
  log_level ← required (env (codes "LOG_LEVEL"))
  mqtt_host ← required (env (codes "MQTT_HOST"))
  mqtt_port ← parse_int (env (codes "MQTT_PORT"))
  mqtts_port ← parse_int (env (codes "MQTTS_PORT"))
  some (record {
    mongo_uri = mongo_uri;
    log_level = log_level;
    mqtt_host = mqtt_host;
    mqtt_port = mqtt_port;
    mqtts_port = mqtts_port;
  })

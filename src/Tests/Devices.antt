-- ===== src/Tests/Devices.antt =====
-- A device that is created and then used, and requests that are not let in.
use trackeroo.Base.{
  ◌≡◌, refl, true, false, none, some, [], ◌∷◌, ◌++◌, Bytes, codes, bytes_eq, Dict, lookup,
  get_elem?, pos, returned, arith, if◌then◌else◌,
}
use trackeroo.Base.Base64.{encode64}
use trackeroo.Backend.Model.{zero_time}
use trackeroo.Backend.Http.{Request, Writer, fresh_writer, warning}
use trackeroo.Backend.Router.{mount, add_subroute, add_middleware, add_handler, new_router}
use trackeroo.Backend.Cache
use trackeroo.Backend.Token.{JwtLib, Claim}
use trackeroo.Backend.Token.Acceptance.{Carries}
use trackeroo.Backend.Server.{Server, id_eq}
use trackeroo.Backend.Db.{find_first, gen_device_id, get_device_key}
use trackeroo.Backend.Middleware.{mqtt_auth}
use trackeroo.Backend.Config.{Config, load_config}
use trackeroo.Backend.Devices.{create_device}
use trackeroo.Backend.Devices
use trackeroo.Backend.Devices.Creation.{Creates, create_device-Creates}
use trackeroo.Backend.Devices.Admission.{create_device-mqtt_auth}
use trackeroo.Backend.Routes.{Serve, Surroundings, main_router, main_routes}
use trackeroo.Backend.Routes.Guarded.{
  users_part, prefix_of, router_of, main_router_denies, under, denied, main_entries,
}
use trackeroo.Tracky.Config.{get_token, device_claims, secret_of}
use trackeroo.Tests.Accounts.{server, toy_host}
use trackeroo.Tests.Sessions.{environment}
use trackeroo.Tests.Requests.{pong, request}
use trackeroo.Tests.Signing.{signer_of, signer_of-Verifies}

settings : Bytes → Bytes
settings k =
    if bytes_eq k (codes "MQTT_PORT")
    then codes "1883"
    else if bytes_eq k (codes "MQTTS_PORT")
    then codes "8883"
    else codes "x"

abbrev config : Config
config = record {
  mongo_uri = codes "x";
  log_level = codes "x";
  mqtt_host = codes "x";
  mqtt_port = pos 1883;
  mqtts_port = pos 8883;
}

loaded : load_config settings ≡ some config
unfolding load_config settings bytes_eq
loaded = refl

abbrev random : Bytes
random = codes "ab"

abbrev surroundings : Devices.Environment
surroundings = record {
  decode = λ body. some (record { name = codes "van"; device_type = codes "gps" });
  decode_error = codes "bad";
  now = zero_time;
  random = some random;
  random_error = codes "no entropy";
  hex = codes "0102030405060708";
  ca_certificate = none;
  file_error = codes "no file";
  text_of = λ e. codes "db";
  cfg = config;
  from_hex = λ t. none;
  up = λ n. true;
  redis = true;
}

create_device-Creates_example :
    Creates surroundings request server fresh_writer
      (create_device surroundings request (server, fresh_writer))
create_device-Creates_example = create_device-Creates surroundings request server fresh_writer

-- A library that signs, under one key, the claims of the new device alone.
abbrev new_id : Bytes
new_id = gen_device_id (codes "0102030405060708")

abbrev its_claims : Dict Claim
its_claims = device_claims 1000 1000 200 200 new_id

-- the request of the new device
abbrev new_headers : Bytes → Bytes
new_headers k = elim (bytes_eq k (codes "Authorization")) [ true ↦ codes "signed" | false ↦ new_id ]

abbrev its_request : Request
its_request = record request { header = new_headers }

token_made :
    get_token (signer_of 1100 its_claims) (λ t. t) (encode64 random) 200 200 new_id 1000 1000
    ≡ some (codes "signed")
unfolding get_token secret_of signer_of device_claims bytes_eq gen_device_id
token_made = refl

create_device-mqtt_auth_example :
    mqtt_auth
      (signer_of 1100 its_claims)
      true
      pong
      its_request
      ((create_device surroundings request (server, fresh_writer)).0.0, fresh_writer)
    ≡ pong its_request (
      (get_device_key true new_id
          (create_device surroundings request (server, fresh_writer)).0.0).0,
      fresh_writer,
    )
unfolding bytes_eq gen_device_id find_first id_eq Cache.get lookup
create_device-mqtt_auth_example =
    create_device-mqtt_auth (signer_of 1100 its_claims) (λ t. t) pong surroundings request
      its_request server fresh_writer fresh_writer
      (record { name = codes "van"; device_type = codes "gps" }) random 200 200 1000 1000 1100
      (signer_of-Verifies 1100 its_claims) (omega arith) (omega arith, (omega arith, tt)) refl refl
      refl refl refl refl refl token_made

-- a mux that hands every request to the router of the users, and a program without tokens
abbrev to_users : Serve
to_users entries r sw = elim (get_elem? entries 4) [
  | some (pattern, h) ↦ h r sw
  | none ↦ ((sw.0, sw.1), returned tt)
]

abbrev nothing_valid : JwtLib
nothing_valid = record { parse = λ t k. none; sign = λ k c. none }

abbrev program : Surroundings
program = record {
  jwt = nothing_valid;
  host = toy_host;
  login = environment;
  devices = surroundings;
  matches = bytes_eq;
  up = λ n. true;
  queue = record {
    begins = true;
    prepares = true;
    scans = true;
    prepares_update = true;
    executes = true;
    commits = true;
  };
  read_error = codes "EOF";
}

abbrev stranger : Request
stranger = record request { method = codes "DELETE" }

no_token :
    ¬ Carries nothing_valid toy_host (stranger.header (codes "Authorization")) (codes "admin")
no_token c = absurd (let e = c.parses in cc)

main_router_denies_example :
    main_router to_users program (under users_part (codes "/7f") stranger) (server, fresh_writer)
    ≡ (
      (
        server,
        record (denied fresh_writer) {
          access_log = fresh_writer.access_log ++ (warning, 401) ∷ [];
        },
      ),
      returned tt,
    )
main_router_denies_example =
    main_router_denies to_users program users_part (codes "/7f") stranger server fresh_writer found
      no_token
  where
    found :
        (sw : Server × Writer)
        → to_users (main_entries to_users program) (under users_part (codes "/7f") stranger) sw
          ≡ (mount (prefix_of users_part ++ b'/' ∷ [], router_of to_users program users_part)).1
              (under users_part (codes "/7f") stranger)
              sw
    found sw = unfold main_routes add_subroute add_middleware add_handler new_router mount in refl

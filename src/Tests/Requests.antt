-- ===== src/Tests/Requests.antt =====
-- Requests through the guards, the main router's middlewares and the broker's authentication.
use trackeroo.Base.{
  ◌≡◌, refl, true, false, none, some, [], ◌∷◌, ◌++◌, codes, Bytes, returned, panicked, bytes_eq,
}
use trackeroo.Backend.Http.{Handler, Request, fresh_writer, write_header, write, text}
use trackeroo.Backend.Server.{Server}
use trackeroo.Backend.Db.{get_device_key}
use trackeroo.Backend.Middleware.{status_level, auth, mqtt_auth}
use trackeroo.Backend.Middleware.Guards.{Admits, auth-Admits, AdmitsDevice, mqtt_auth-AdmitsDevice}
use trackeroo.Backend.Middleware.Stack.{main_stack, KeepsLog, main_stack_answers}
use trackeroo.Backend.MqttAuth.{topic_form, topic_auth, user_auth}
use trackeroo.Backend.MqttAuth.Users.{UserJudges, user_auth-UserJudges}
use trackeroo.Backend.MqttAuth.Topics.{Judges, is_known_user, topic_auth-Judges}
use trackeroo.Tests.Accounts.{toy_jwt, toy_host, server}

-- a handler that answers, and one that panics
abbrev pub pong : Handler Server
pong r (s, w) = ((s, write (text (codes "pong")) w), returned tt)

abbrev broken : Handler Server
broken r (s, w) = ((s, w), panicked)

abbrev headers : Bytes → Bytes
headers k = elim (bytes_eq k (codes "Authorization")) [
  | true ↦ codes "Bearer signed"
  | false ↦ codes "trk-01"
]

abbrev form : Bytes → Bytes
form k = elim (bytes_eq k (codes "routing_key")) [
  | true ↦ codes "j.data.trk-01.gps"
  | false ↦ codes "trk-01"
]

abbrev pub request : Request
request = record {
  method = codes "GET";
  path = codes "/users/x";
  header = headers;
  query = λ k. codes "";
  path_value = λ k. codes "";
  form = some form;
  body = none;
}

auth-Admits_example :
    Admits toy_jwt toy_host pong request server fresh_writer
      (auth toy_jwt toy_host pong request (server, fresh_writer))
auth-Admits_example = auth-Admits toy_jwt toy_host pong request server fresh_writer

mqtt_auth-AdmitsDevice_example :
    AdmitsDevice toy_jwt pong request fresh_writer
      (get_device_key true (request.header (codes "Username")) server)
      (mqtt_auth toy_jwt true pong request (server, fresh_writer))
mqtt_auth-AdmitsDevice_example =
    mqtt_auth-AdmitsDevice toy_jwt true pong request server fresh_writer

pong-KeepsLog : KeepsLog pong
unfolding write
pong-KeepsLog r s w = refl

main_stack_answers_example :
    ((main_stack pong request (server, fresh_writer)).1 ≡ returned tt)
    × ((main_stack pong request (server, fresh_writer)).0.1.access_log
        ≡ fresh_writer.access_log
          ++ (
            status_level (main_stack pong request (server, fresh_writer)).0.1.logged,
            (main_stack pong request (server, fresh_writer)).0.1.logged,
          )
            ∷ [])
main_stack_answers_example = main_stack_answers pong request server fresh_writer pong-KeepsLog

user_auth-UserJudges_example :
    UserJudges toy_jwt bytes_eq
      (λ n. true)
      (record { username = form (codes "username"); password = form (codes "password") })
      server
      (write_header 200 fresh_writer)
      (user_auth toy_jwt bytes_eq (λ n. true) request (server, fresh_writer))
unfolding bytes_eq
user_auth-UserJudges_example =
    user_auth-UserJudges toy_jwt bytes_eq (λ n. true) form request server fresh_writer refl refl
      refl

topic_auth-Judges_example :
    Judges
      (is_known_user true (form (codes "username")) server)
      (topic_form form)
      fresh_writer.body
      (topic_auth true request (server, fresh_writer))
topic_auth-Judges_example = topic_auth-Judges true form request server fresh_writer refl

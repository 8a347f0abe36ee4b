-- ===== src/Backend/Routes.antt =====
-- trackeroo-backend/src/cmd/trackeroo-backend/main.go: the routes of the API. The lookup of
-- http.ServeMux is the argument `serve`.
pub mod Guarded
use trackeroo.Base.{ℕ, Bool, Option, List, Bytes, codes}
use trackeroo.Backend.Http.{Handler}
use trackeroo.Backend.Router.{
  Router, new_router, add_handler, add_middleware, add_subroute, finalize,
}
use trackeroo.Backend.Token.{JwtLib, Host}
use trackeroo.Backend.Server.{Server}
use trackeroo.Backend.Db.{DbError}
use trackeroo.Backend.Pq.{Answers}
use trackeroo.Backend.Middleware.{auth, mqtt_auth, logging, recovering, cors}
use trackeroo.Backend.MqttAuth.{user_auth, vhost_auth, resource_auth, topic_auth}
use trackeroo.Backend.Publisher.{publish_payload}
use trackeroo.Backend.Login.{handle_login}
use trackeroo.Backend.Login
use trackeroo.Backend.Users.{health_check, options}
use trackeroo.Backend.Users
use trackeroo.Backend.Devices

abbrev pub Serve : Type 0
Serve = List (Bytes × Handler Server) → Handler Server

-- what the handlers of one request read of the program's surroundings
pub record Surroundings : Type 0 where
  pub jwt : JwtLib
  pub host : Host
  pub login : Login.Environment
  pub devices : Devices.Environment
  pub matches : Bytes → Bytes → Bool
  pub up : ℕ → Bool
  pub queue : Answers
  pub read_error : Bytes

module _ (serve : Serve) (x : Surroundings) where
  unfoldable pub login_router : Handler Server
  unfolding finalize new_router add_handler
  login_router =
      finalize serve
        (add_handler (codes "POST /") (handle_login x.jwt x.host x.login x.up) new_router)

  unfoldable pub device_routes : Router Server
  unfolding new_router add_handler
  device_routes = add_handler (codes "DELETE /{id}") (Devices.delete_device x.devices) (
      add_handler (codes "PUT /{id}") Devices.update_device (
        add_handler (codes "GET /{id}/credentials") (Devices.get_device_credentials x.devices) (
          add_handler (codes "GET /credentials") (Devices.get_credentials x.devices) (
            add_handler (codes "GET /{id}") (Devices.get_device x.devices) (
              add_handler (codes "POST /") (Devices.create_device x.devices)
                (add_handler (codes "GET /") (Devices.get_devices x.devices) new_router))))))

  unfoldable pub devices_router : Handler Server
  unfolding finalize add_middleware device_routes
  devices_router = finalize serve (add_middleware (auth x.jwt x.host) device_routes)

  unfoldable pub user_routes : Router Server
  unfolding new_router add_handler
  user_routes = add_handler (codes "DELETE /{id}") (Users.delete_user x.devices.text_of (x.up 0)) (
      add_handler (codes "PUT /{id}") Users.update_user (
        add_handler (codes "GET /{id}")
          (Users.get_user x.devices.text_of x.devices.from_hex (x.up 0))
          (add_handler (codes "POST /") Users.create_user
            (add_handler (codes "GET /") (Users.get_users x.devices.text_of (x.up 0)) new_router))))

  unfoldable pub users_router : Handler Server
  unfolding finalize add_middleware user_routes
  users_router = finalize serve (add_middleware (auth x.jwt x.host) user_routes)

  unfoldable pub auth_router : Handler Server
  unfolding finalize new_router add_handler
  auth_router = finalize serve (
      add_handler (codes "POST /topic") (topic_auth (x.up 0)) (
        add_handler (codes "POST /resource") resource_auth (
          add_handler (codes "POST /vhost") vhost_auth
            (add_handler (codes "POST /user") (user_auth x.jwt x.matches x.up) new_router))))

  unfoldable pub publish_routes : Router Server
  unfolding new_router add_handler
  publish_routes =
      add_handler (codes "POST /publish") (publish_payload x.queue x.read_error) new_router

  unfoldable pub publish_router : Handler Server
  unfolding finalize add_middleware publish_routes
  publish_router = finalize serve (add_middleware (mqtt_auth x.jwt (x.up 0)) publish_routes)

  unfoldable pub main_routes : Router Server
  unfolding new_router add_handler add_middleware add_subroute login_router devices_router
      users_router auth_router publish_router
  main_routes = add_subroute (codes "/tdm/") publish_router (
      add_subroute (codes "/auth/") auth_router (
        add_subroute (codes "/users/") users_router (
          add_subroute (codes "/devices/") devices_router (
            add_subroute (codes "/login/") login_router (
              add_middleware cors (
                add_middleware recovering (
                  add_middleware logging (
                    add_handler (codes "OPTIONS /tdm/publish") options
                      (add_handler (codes "GET /health") health_check new_router)))))))))

  unfoldable pub main_router : Handler Server
  unfolding finalize main_routes
  main_router = finalize serve main_routes

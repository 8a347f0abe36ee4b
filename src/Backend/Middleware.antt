-- ===== src/Backend/Middleware.antt =====
-- trackeroo-backend/src/internal/middleware: what stands around the handlers. The order of the
-- main router is that of cmd/trackeroo-backend/main.go.
pub mod Stack
pub mod Guards
use trackeroo.Base.{
  ℕ, Bool, true, false, not, ◌&&◌, ◌||◌, Option, none, some, List, [], ◌∷◌, ◌++◌, Bytes, codes, ltb,
  if◌then◌else◌, Dict, lookup, Outcome, returned, panicked,
}
use trackeroo.Backend.Http.{
  Handler, Request, Writer, Level, info, warning, error, json_error, write, write_header,
  set_header, content_type, application_json,
}
use trackeroo.Backend.Token.{
  JwtLib, Host, Claim, TokenError, validate_user_jwt, validate_device_jwt, is_refused,
}
use trackeroo.Backend.Server.{Server}
use trackeroo.Backend.Db.{Result, ok, err, get_device_key}

-- middleware/logger.go: the level of the line that is logged for a status
unfoldable pub status_level : ℕ → Level
status_level code = if ltb code 400 then info else if ltb code 500 then warning else error

unfoldable pub unauthorized : Writer → Writer
unauthorized w = write (json_error (codes "Unauthorized!")) (write_header 401 w)

module _ {S : Type 0} where
  unfoldable pub log_line : (S × Writer) × Outcome (Unit {0}) → (S × Writer) × Outcome (Unit {0})
  unfolding status_level
  log_line (sw, panicked) = (sw, panicked)
  log_line ((s, w), returned u) = (
    (s, record w { access_log = w.access_log ++ (status_level w.logged, w.logged) ∷ [] }),
    returned u,
  )

  unfoldable pub logging : Handler S → Handler S
  unfolding log_line
  logging next r (s, w) = log_line (next r (s, record w { logged = 200 }))

  unfoldable pub caught : (S × Writer) × Outcome (Unit {0}) → (S × Writer) × Outcome (Unit {0})
  caught (sw, returned u) = (sw, returned u)
  caught ((s, w), panicked) =
      ((s, write (json_error (codes "Internal Server Error")) (write_header 500 w)), returned tt)

  -- middleware/recover.go
  unfoldable pub recovering : Handler S → Handler S
  unfolding caught
  recovering next r sw = caught (next r sw)

  -- middleware/cors.go
  unfoldable pub cors : Handler S → Handler S
  cors next r (s, w) = next r (
    s,
    set_header (codes "Access-Control-Allow-Headers") (codes "Content-Type, Authorization") (
        set_header (codes "Access-Control-Allow-Methods") (codes "GET, POST, PUT, DELETE, OPTIONS")
          (set_header (codes "Access-Control-Allow-Origin") (codes "*") w)),
  )

  admit : Bool × Option TokenError → Handler S → Handler S
  unfolding unauthorized
  admit (valid, some e) next r (s, w) = ((s, unauthorized w), returned tt)
  admit (valid, none) next r (s, w) =
      if valid then next r (s, w) else ((s, unauthorized w), returned tt)

  -- middleware/auth.go, `Auth`
  unfoldable pub auth : JwtLib → Host → Handler S → Handler S
  unfolding admit
  auth j h next r (s, w) =
      admit (validate_user_jwt j h (r.header (codes "Authorization")) (codes "admin")) next r
        (s, set_header content_type application_json w)

admit_device :
    JwtLib
    → Server × Result Bytes
    → Handler Server
    → Request
    → Writer
    → (Server × Writer) × Outcome (Unit {0})
unfolding is_refused
admit_device j (s, err e) next r w = ((s, unauthorized w), returned tt)
admit_device j (s, ok key) next r w =
    if is_refused (r.header (codes "Username"))
      (validate_device_jwt j key (r.header (codes "Authorization")))
    then ((s, unauthorized w), returned tt)
    else next r (s, w)

-- middleware/auth.go, `MqttAuth`
unfoldable pub mqtt_auth : JwtLib → Bool → Handler Server → Handler Server
unfolding admit_device
mqtt_auth j up next r (s, w) =
    admit_device j (get_device_key up (r.header (codes "Username")) s) next r w

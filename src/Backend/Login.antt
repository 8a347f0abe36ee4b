-- ===== src/Backend/Login.antt =====
-- trackeroo-backend/src/internal/handler/login.go. `up n` says whether the database answers the n-th
-- query of the handler.
pub mod Granting
use trackeroo.Base.{
  ℕ, Bool, true, false, not, Option, none, some, [], Bytes, codes, lookup, Dict, if◌then◌else◌,
  Outcome, returned, pos,
}
use trackeroo.Backend.Http.{
  Handler, Request, Writer, write, write_header, http_error, json_error, json_token,
}
use trackeroo.Backend.Model.{User, Login, Time, zero_time}
use trackeroo.Backend.Token.{
  JwtLib, Host, Claim, TokenError, no_key, Signed, signed, sign_error, generate_jwt,
}
use trackeroo.Backend.Server.{Server}
use trackeroo.Backend.Db.{Result, ok, err, get_user_by_name, update_user}
use trackeroo.Backend.MqttAuth.{validate_login}

-- What the handler uses of other code: the JSON decoder and the texts of its and golang-jwt's errors,
-- bcrypt's comparison, and the clock.
pub record Environment : Type 0 where
  pub decode : Option Bytes → Option Login
  pub decode_error : Bytes
  pub sign_error_text : Bytes
  pub matches : Bytes → Bytes → Bool
  pub now : ℕ
  pub nanoseconds : ℕ

abbrev pub zero_user : User
zero_user = record {
  id = codes "";
  username = codes "";
  role = codes "";
  password_hash = codes "";
  last_login = zero_time;
  session_token = codes "";
  issued_at = zero_time;
  expires_at = zero_time;
}

-- `user, _ := GetUserByName(…)`
unfoldable pub or_zero : Result User → User
or_zero (ok user) = user
or_zero (err e) = zero_user

-- `claims[k].(time.Time)`: no claim has this type, so the zero value comes out.
unfoldable pub as_time : Option Claim → Time
as_time c = zero_time

unfoldable pub error_text : Environment → TokenError → Bytes
error_text x no_key = codes "failed to get jwt key"
error_text x _ = x.sign_error_text

unfoldable pub session_of : Environment → User → Bytes → Dict Claim → User
unfolding as_time
session_of x user tok claims = record user {
  last_login = record { sec = pos x.now; nsec = x.nanoseconds };
  session_token = tok;
  expires_at = as_time (lookup (codes "exp") claims);
  issued_at = as_time (lookup (codes "iat") claims);
}

-- after `GenerateJWT`; the error of `UpdateUser` is dropped
unfoldable pub grant :
    Environment → Bool → User → Signed → Server → Writer → (Server × Writer) × Outcome (Unit {0})
unfolding error_text session_of
grant x up user (sign_error e) s w =
    ((s, write (json_error (error_text x e)) (write_header 500 w)), returned tt)
grant x up user (signed tok claims) s w = (
  (
    (update_user up (session_of x user tok claims) s).0,
    write (json_token tok) (write_header 200 w),
  ),
  returned tt,
)

unfoldable pub login :
    JwtLib
    → Host
    → Environment
    → (ℕ → Bool)
    → Login
    → Server
    → Writer
    → (Server × Writer) × Outcome (Unit {0})
unfolding grant or_zero
login j h x up form s w =
    let user = or_zero (get_user_by_name (up 1) form.username s) in
    if not (validate_login x.matches (up 0) form s)
    then ((s, write (json_error (codes "Unauthorized")) (write_header 401 w)), returned tt)
    else grant x (up 2) user (generate_jwt j h user x.now) s w

unfoldable pub handle_login : JwtLib → Host → Environment → (ℕ → Bool) → Handler Server
unfolding login
handle_login j h x up r (s, w) = elim (x.decode r.body) [
  | none ↦ ((s, http_error x.decode_error 400 w), returned tt)
  | some form ↦ login j h x up form s w
]

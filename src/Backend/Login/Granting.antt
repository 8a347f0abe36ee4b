-- ===== src/Backend/Login/Granting.antt =====
-- Who is granted a session token by handler/login.go.
use trackeroo.Base.{
  ℕ, ◌≡◌, refl, Bool, true, false, none, some, Bytes, codes, Dict, arith, inl, inr, Bool-cases,
  Option-cases, Outcome, returned,
}
use trackeroo.Backend.Http.{
  Request, Writer, write, write_header, http_error, json_error, json_token,
}
use trackeroo.Backend.Model.{User, Login}
use trackeroo.Backend.Token.{
  JwtLib, Host, Claim, TokenError, Signed, signed, sign_error, generate_jwt,
}
use trackeroo.Backend.Server.{Server}
use trackeroo.Backend.Db.{Result, ok, err, get_user_by_name, update_user}
use trackeroo.Backend.MqttAuth.{validate_login, password_matches}
use trackeroo.Backend.Login.{
  Environment, or_zero, error_text, session_of, grant, login, handle_login,
}

abbrev pub Reply : Type 0
Reply = (Server × Writer) × Outcome (Unit {0})

module _ (j : JwtLib) (h : Host) (x : Environment) (up : ℕ → Bool) (r : Request) (s : Server)
    (w : Writer) where
  -- the user of the second query, for whom the token is made
  abbrev pub owner : Login → User
  owner form = or_zero (get_user_by_name (up 1) form.username s)

  -- How `HandleLogin` answers.
  pub data LoginEnds (res : Reply) : Type 0 where
    malformed :
        x.decode r.body ≡ none
        → res ≡ ((s, http_error x.decode_error 400 w), returned tt)
        → LoginEnds res
    refused :
        (form : Login)
        → x.decode r.body ≡ some form
        → validate_login x.matches (up 0) form s ≡ false
        → res ≡ ((s, write (json_error (codes "Unauthorized")) (write_header 401 w)), returned tt)
        → LoginEnds res
    unsigned :
        (form : Login) (e : TokenError)
        → x.decode r.body ≡ some form
        → validate_login x.matches (up 0) form s ≡ true
        → generate_jwt j h (owner form) x.now ≡ sign_error e
        → res ≡ ((s, write (json_error (error_text x e)) (write_header 500 w)), returned tt)
        → LoginEnds res
    granted :
        (form : Login) (user : User) (tok : Bytes) (claims : Dict Claim)
        → x.decode r.body ≡ some form
        → get_user_by_name (up 0) form.username s ≡ ok user
        → x.matches user.password_hash form.password ≡ true
        → generate_jwt j h (owner form) x.now ≡ signed tok claims
        → res ≡ (
          (
            (update_user (up 2) (session_of x (owner form) tok claims) s).0,
            write (json_token tok) (write_header 200 w),
          ),
          returned tt,
        )
        → LoginEnds res

  password_sound :
      (form : Login) (res : Result User)
      → password_matches x.matches res form.password ≡ true
      → (user : User) × (res ≡ ok user) × (x.matches user.password_hash form.password ≡ true)
  unfolding password_matches
  password_sound form (err e) h = cc
  password_sound form (ok user) h = (user, refl, h)

  valid_sound :
      (form : Login)
      → validate_login x.matches (up 0) form s ≡ true
      → password_matches x.matches (get_user_by_name (up 0) form.username s) form.password ≡ true
  unfolding validate_login
  valid_sound form h = ground arith

  login_refused :
      (form : Login)
      → validate_login x.matches (up 0) form s ≡ false
      → login j h x up form s w
        ≡ ((s, write (json_error (codes "Unauthorized")) (write_header 401 w)), returned tt)
  unfolding login
  login_refused form e = rw e

  login_valid :
      (form : Login)
      → validate_login x.matches (up 0) form s ≡ true
      → login j h x up form s w
        ≡ grant x (up 2) (owner form) (generate_jwt j h (owner form) x.now) s w
  unfolding login
  login_valid form e = rw e

  grant-LoginEnds :
      (form : Login) (t : Signed)
      → x.decode r.body ≡ some form
      → validate_login x.matches (up 0) form s ≡ true
      → generate_jwt j h (owner form) x.now ≡ t
      → LoginEnds (grant x (up 2) (owner form) t s w)
  grant-LoginEnds form (sign_error e) d v g = unsigned form e d v g (unfold grant in refl)
  grant-LoginEnds form (signed tok claims) d v g =
      let (user, found, matched) =
        password_sound form (get_user_by_name (up 0) form.username s) (valid_sound form v) in
      granted form user tok claims d found matched g (unfold grant in refl)

  login-LoginEnds :
      (form : Login) → x.decode r.body ≡ some form → LoginEnds (login j h x up form s w)
  login-LoginEnds form d = elim (Bool-cases (validate_login x.matches (up 0) form s)) [
    | inl v ↦
        rw (login_valid form v)
          (grant-LoginEnds form (generate_jwt j h (owner form) x.now) d v refl)
    | inr v ↦ refused form d v (login_refused form v)
  ]

  -- `HandleLogin` answers a body that does not decode by status 400, a wrong name or password by
  -- status 401 and a failure to sign by status 500, and leaves the server as it was in the three
  -- cases. It answers with a token only if the name is a user's whose stored hash matches the
  -- password; the token is made for the user that the second query finds, and the session is handed
  -- to `UpdateUser`.
  pub handle_login-LoginEnds : LoginEnds (handle_login j h x up r (s, w))
  unfolding handle_login
  handle_login-LoginEnds = elim (Option-cases (x.decode r.body)) [
    | inl e ↦ malformed e (rw (e, handle_login))
    | inr (form, e) ↦ rw (e, handle_login) (login-LoginEnds form e)
  ]

-- ===== src/Backend/Middleware/Guards.antt =====
-- Who gets past the two guards of middleware/auth.go, and what the others are answered.
use trackeroo.Base.{
  not_both, ◌≡◌, refl, ap, ◌∙◌, Bool, true, false, Option, none, some, Bytes, codes, returned,
  Outcome, Bool-cases, inl, inr,
}
use trackeroo.Backend.Http.{Handler, Request, Writer, set_header, content_type, application_json}
use trackeroo.Backend.Token.{
  JwtLib, Host, TokenError, is_refused, validate_user_jwt, validate_device_jwt,
}
use trackeroo.Backend.Token.Acceptance.{
  Carries, header-Carries, validate_user_jwt_iff, IsDeviceToken, is_refused_iff,
}
use trackeroo.Backend.Server.{Server}
use trackeroo.Backend.Db.{DbError, Result, ok, err, get_device_key}
use trackeroo.Backend.Middleware.{unauthorized, admit, auth, admit_device, mqtt_auth}

module _ {S : Type 0} where
  admit_rejected :
      (next : Handler S) (r : Request) (s : S) (w : Writer) (v : Bool × Option TokenError)
      → v.0 ≡ false
      → admit v next r (s, w) ≡ ((s, unauthorized w), returned tt)
  unfolding admit
  admit_rejected next r s w (valid, some e) f = refl
  admit_rejected next r s w (valid, none) f = rw f

  admit_accepted :
      (next : Handler S) (r : Request) (s : S) (w : Writer)
      → admit (true, none) next r (s, w) ≡ next r (s, w)
  unfolding admit
  admit_accepted next r s w = refl

  -- How `Auth` ends: with the guarded handler on a request of an admin, or with status 401.
  pub data Admits (j : JwtLib) (h : Host) (next : Handler S) (r : Request) (s : S) (w : Writer)
      (res : (S × Writer) × Outcome (Unit {0})) : Type 0 where
    enters :
        Carries j h (r.header (codes "Authorization")) (codes "admin")
        → res ≡ next r (s, set_header content_type application_json w)
        → Admits j h next r s w res
    rejects :
        ¬ Carries j h (r.header (codes "Authorization")) (codes "admin")
        → res ≡ ((s, unauthorized (set_header content_type application_json w)), returned tt)
        → Admits j h next r s w res

  -- `Auth` runs the guarded handler, with the JSON content type set and nothing else changed, on a
  -- request whose Authorization header carries a valid token of an admin; every other request is
  -- answered by status 401 and leaves the server as it was.
  pub auth-Admits :
      (j : JwtLib) (h : Host) (next : Handler S) (r : Request) (s : S) (w : Writer)
      → Admits j h next r s w (auth j h next r (s, w))
  unfolding auth
  auth-Admits j h next r s w =
      let header = r.header (codes "Authorization") in
      let marked = set_header content_type application_json w in
      let judged = validate_user_jwt_iff j h header (codes "admin") in
      elim (Bool-cases (validate_user_jwt j h header (codes "admin")).0) [
        | inl e ↦ enters (judged.0 e) (
            ap (λ v. admit v next r (s, marked))
              (header-Carries j h header (codes "admin") (judged.0 e))
            ∙ admit_accepted next r s marked)
        | inr e ↦
            rejects (λ c. absurd (not_both (judged.1 c) e))
              (admit_rejected next r s marked (validate_user_jwt j h header (codes "admin")) e)
      ]

device_rejected :
    (j : JwtLib) (s : Server) (key : Bytes) (next : Handler Server) (r : Request) (w : Writer)
    → is_refused
        (r.header (codes "Username"))
        (validate_device_jwt j key (r.header (codes "Authorization")))
      ≡ true
    → admit_device j (s, ok key) next r w ≡ ((s, unauthorized w), returned tt)
unfolding admit_device
device_rejected j s key next r w e = rw e

device_admitted :
    (j : JwtLib) (s : Server) (key : Bytes) (next : Handler Server) (r : Request) (w : Writer)
    → is_refused
        (r.header (codes "Username"))
        (validate_device_jwt j key (r.header (codes "Authorization")))
      ≡ false
    → admit_device j (s, ok key) next r w ≡ next r (s, w)
unfolding admit_device
device_admitted j s key next r w e = rw e

-- How `MqttAuth` ends, where `got` is the lookup of the key of the device that the request names.
pub data AdmitsDevice (j : JwtLib) (next : Handler Server) (r : Request) (w : Writer)
    (got : Server × Result Bytes) (res : (Server × Writer) × Outcome (Unit {0})) : Type 0 where
  unknown :
      (e : DbError)
      → got.1 ≡ err e
      → res ≡ ((got.0, unauthorized w), returned tt)
      → AdmitsDevice j next r w got res
  enters :
      (key : Bytes)
      → got.1 ≡ ok key
      → IsDeviceToken j key (r.header (codes "Authorization")) (r.header (codes "Username"))
      → res ≡ next r (got.0, w)
      → AdmitsDevice j next r w got res
  rejects :
      (key : Bytes)
      → got.1 ≡ ok key
      → ¬ IsDeviceToken j key (r.header (codes "Authorization")) (r.header (codes "Username"))
      → res ≡ ((got.0, unauthorized w), returned tt)
      → AdmitsDevice j next r w got res

admit-AdmitsDevice :
    (j : JwtLib) (s : Server) (k : Result Bytes) (next : Handler Server) (r : Request) (w : Writer)
    → AdmitsDevice j next r w (s, k) (admit_device j (s, k) next r w)
admit-AdmitsDevice j s (err e) next r w = unknown e refl (unfold admit_device in refl)
admit-AdmitsDevice j s (ok key) next r w =
    let text = r.header (codes "Authorization") in
    let name = r.header (codes "Username") in
    let judged = is_refused_iff j key text name in
    elim (Bool-cases (is_refused name (validate_device_jwt j key text))) [
      | inl e ↦
          rejects key refl (λ t. absurd (not_both e (judged.1 t)))
            (device_rejected j s key next r w e)
      | inr e ↦ enters key refl (judged.0 e) (device_admitted j s key next r w e)
    ]

-- `MqttAuth` looks up the key of the device that the header Username names. Without a key it
-- answers 401; with one it runs the guarded handler exactly if the Authorization header is a token
-- of that device under that key, and answers 401 otherwise. The server is left as the lookup of
-- the key left it.
pub mqtt_auth-AdmitsDevice :
    (j : JwtLib) (up : Bool) (next : Handler Server) (r : Request) (s : Server) (w : Writer)
    → AdmitsDevice j next r w
        (get_device_key up (r.header (codes "Username")) s)
        (mqtt_auth j up next r (s, w))
unfolding mqtt_auth
mqtt_auth-AdmitsDevice j up next r s w =
    let got = get_device_key up (r.header (codes "Username")) s in
    admit-AdmitsDevice j got.0 got.1 next r w

-- ===== src/Backend/MqttAuth/Users.antt =====
-- What `UserAuth` of handler/mqttauth.go allows.
use trackeroo.Base.{
  not_both, ℕ, ◌≡◌, refl, ap, ◌∙◌, inl, inr, Bool, true, false, some, Bytes, codes, if◌then◌else◌,
  Bool-cases,
}
use trackeroo.Backend.Http.{Request, Writer, write_header}
use trackeroo.Backend.Model.{User, Login}
use trackeroo.Backend.Server.{Server}
use trackeroo.Backend.Token.{JwtLib, is_refused, validate_device_jwt}
use trackeroo.Backend.Token.Acceptance.{IsDeviceToken, is_refused_iff}
use trackeroo.Backend.Db.{DbError, Result, Result-cases, ok, err, get_user_by_name, get_device_key}
use trackeroo.Backend.MqttAuth.{
  Reply, allow, allow_administrator, deny, say, is_empty, validate_login, device_auth, named_auth,
  form_auth, user_auth,
}

module _ (j : JwtLib) (matches : Bytes → Bytes → Bool) (up : ℕ → Bool) (form : Login) (s : Server)
    (w : Writer) where
  named_user :
      (user user' : User)
      → is_empty form.username ≡ false
      → is_empty form.password ≡ false
      → get_user_by_name (up 1) form.username s ≡ ok user'
      → named_auth j matches up form (ok user) s w
        ≡ say s w (if matches user'.password_hash form.password then allow_administrator else deny)
  unfolding named_auth
  named_user user user' e f g = elim (Bool-cases (matches user'.password_hash form.password)) [
    | inl m ↦ rw (validate_login, e, f, g, m)
    | inr m ↦ rw (validate_login, e, f, g, m)
  ]

  named_vanished :
      (user : User) (x : DbError)
      → is_empty form.username ≡ false
      → is_empty form.password ≡ false
      → get_user_by_name (up 1) form.username s ≡ err x
      → named_auth j matches up form (ok user) s w ≡ say s w deny
  unfolding named_auth
  named_vanished user x e f g = rw (validate_login, e, f, g)

  form_split :
      is_empty form.username ≡ false
      → is_empty form.password ≡ false
      → form_auth j matches up form s w
        ≡ named_auth j matches up form (get_user_by_name (up 0) form.username s) s w
  unfolding form_auth
  form_split e f = rw (e, f)

  -- How `UserAuth` answers to a form with a name and a password.
  pub data UserJudges (r : Reply) : Type 0 where
    for_user :
        (user user' : User)
        → get_user_by_name (up 0) form.username s ≡ ok user
        → get_user_by_name (up 1) form.username s ≡ ok user'
        → r
          ≡ say s w
              (if matches user'.password_hash form.password then allow_administrator else deny)
        → UserJudges r
    vanished :
        (user : User) (e : DbError)
        → get_user_by_name (up 0) form.username s ≡ ok user
        → get_user_by_name (up 1) form.username s ≡ err e
        → r ≡ say s w deny
        → UserJudges r
    nobody :
        (e e' : DbError)
        → get_user_by_name (up 0) form.username s ≡ err e
        → (get_device_key (up 1) form.username s).1 ≡ err e'
        → r ≡ say (get_device_key (up 1) form.username s).0 w deny
        → UserJudges r
    for_device :
        (e : DbError) (key : Bytes)
        → get_user_by_name (up 0) form.username s ≡ err e
        → (get_device_key (up 1) form.username s).1 ≡ ok key
        → IsDeviceToken j key form.password form.username
        → r ≡ say (get_device_key (up 1) form.username s).0 w allow
        → UserJudges r
    impostor :
        (e : DbError) (key : Bytes)
        → get_user_by_name (up 0) form.username s ≡ err e
        → (get_device_key (up 1) form.username s).1 ≡ ok key
        → ¬ IsDeviceToken j key form.password form.username
        → r ≡ say (get_device_key (up 1) form.username s).0 w deny
        → UserJudges r

  named_device :
      (e : DbError) (res : Result Bytes)
      → get_user_by_name (up 0) form.username s ≡ err e
      → (get_device_key (up 1) form.username s).1 ≡ res
      → named_auth j matches up form (get_user_by_name (up 0) form.username s) s w
        ≡ device_auth j form ((get_device_key (up 1) form.username s).0, res) w
  unfolding named_auth
  named_device e res h g =
      ap (λ u. named_auth j matches up form u s w) h
      ∙ ap (λ k. device_auth j form ((get_device_key (up 1) form.username s).0, k) w) g

  device_say :
      (s' : Server) (key : Bytes) (refusal : Bool)
      → is_refused form.username (validate_device_jwt j key form.password) ≡ refusal
      → device_auth j form (s', ok key) w ≡ say s' w (if refusal then deny else allow)
  unfolding device_auth
  device_say s' key true e = rw e
  device_say s' key false e = rw e

  device-UserJudges :
      (e : DbError)
      → get_user_by_name (up 0) form.username s ≡ err e
      → UserJudges (named_auth j matches up form (get_user_by_name (up 0) form.username s) s w)
  device-UserJudges e h = elim (Result-cases (get_device_key (up 1) form.username s).1) [
    | inl (key, g) ↦
        let judged = is_refused_iff j key form.password form.username in
        elim (Bool-cases (is_refused form.username (validate_device_jwt j key form.password))) [
          | inl x ↦
              impostor e key h g (λ t. absurd (not_both x (judged.1 t)))
                (named_device e (ok key) h g ∙ device_say _ key true x)
          | inr x ↦
              for_device e key h g (judged.0 x)
                (named_device e (ok key) h g ∙ device_say _ key false x)
        ]
    | inr (e', g) ↦ nobody e e' h g (named_device e (err e') h g ∙ (unfold device_auth in refl))
  ]

  form-UserJudges :
      is_empty form.username ≡ false
      → is_empty form.password ≡ false
      → UserJudges (form_auth j matches up form s w)
  form-UserJudges p q =
      rw (form_split p q) (elim (Result-cases (get_user_by_name (up 0) form.username s)) [
        | inl (user, h) ↦ elim (Result-cases (get_user_by_name (up 1) form.username s)) [
          | inl (user', g) ↦
              for_user user user' h g
                (ap (λ u. named_auth j matches up form u s w) h ∙ named_user user user' p q g)
          | inr (e, g) ↦
              vanished user e h g
                (ap (λ u. named_auth j matches up form u s w) h ∙ named_vanished user e p q g)
        ]
        | inr (e, h) ↦ device-UserJudges e h
      ])

-- `UserAuth` on a form with a name and a password. A name that the first query finds among the
-- users is answered "allow administrator" if the hash that the second query finds matches the
-- password, and "deny" if it does not or if the second query fails. Any other name is answered
-- "allow" if a device of this name has a key under which the password is a token of that device,
-- and "deny" if it is not or if there is no key. Nothing of the server changes but what the lookup
-- of the key does.
pub user_auth-UserJudges :
    (j : JwtLib) (matches : Bytes → Bytes → Bool) (up : ℕ → Bool) (f : Bytes → Bytes) (r : Request)
    (s : Server) (w : Writer)
    → r.form ≡ some f
    → is_empty (f (codes "username")) ≡ false
    → is_empty (f (codes "password")) ≡ false
    → UserJudges j matches up
        (record { username = f (codes "username"); password = f (codes "password") })
        s
        (write_header 200 w)
        (user_auth j matches up r (s, w))
unfolding user_auth
user_auth-UserJudges j matches up f r s w e p q =
    rw (e, user_auth) (form-UserJudges j matches up _ s (write_header 200 w) p q)

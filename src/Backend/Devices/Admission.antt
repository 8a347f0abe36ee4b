-- ===== src/Backend/Devices/Admission.antt =====
-- A created device is let in: the key that handler/devices.go hands out is the one that the guards
-- of the backend ask for.
use trackeroo.Base.{◌≡◌, refl, ap, sym, ◌∙◌, ℕ, ◌+◌, ◌<◌, true, none, some, Bytes, codes}
use trackeroo.Base.Base64.{AreBytes, encode64}
use trackeroo.Backend.Model.{Device, DeviceCreation}
use trackeroo.Backend.Http.{Handler, Request, Writer}
use trackeroo.Backend.Cache
use trackeroo.Backend.Token.{JwtLib}
use trackeroo.Backend.Token.Acceptance.{IsDeviceToken}
use trackeroo.Backend.Token.Issue.{Verifies}
use trackeroo.Backend.Server.{Server, string_id}
use trackeroo.Backend.Db.{
  Result, ok, find_first, device_has, insert_device, gen_device_id, get_device_key,
}
use trackeroo.Backend.Middleware.{mqtt_auth}
use trackeroo.Backend.Middleware.Guards.{
  AdmitsDevice, unknown, enters, rejects, mqtt_auth-AdmitsDevice,
}
use trackeroo.Tracky.Config.{get_token}
use trackeroo.Tracky.Config.Accepted.{get_token-IsDeviceToken}
use trackeroo.Backend.Devices.Creation.{
  with_device, stored_device, inserted, create_device_step, created_ok,
}
use trackeroo.Backend.Devices.{Environment, Ending, new_device, create_device, created}

-- the answer of the guard where the key is known and the token good
entered :
    (j : JwtLib) (next : Handler Server) (r : Request) (w : Writer) (got : Server × Result Bytes)
    (res : Ending) (key : Bytes)
    → got.1 ≡ ok key
    → IsDeviceToken j key (r.header (codes "Authorization")) (r.header (codes "Username"))
    → AdmitsDevice j next r w got res
    → res ≡ next r (got.0, w)
entered j next r w got res key k t (unknown e f g) = absurd (let h = sym k ∙ f in cc)
entered j next r w got res key k t (enters key' f t' g) = g
entered j next r w got res key k t (rejects key' f not_token g) =
    absurd (not_token (rw (same_key k f) at t))
  where
    same_key : {g : Result Bytes} {a b : Bytes} → g ≡ ok a → g ≡ ok b → a ≡ b
    same_key p q = cc

admitted :
    (j : JwtLib) (next : Handler Server) (r : Request) (t : Server) (w : Writer) (key id : Bytes)
    → r.header (codes "Username") ≡ id
    → (get_device_key true id t).1 ≡ ok key
    → IsDeviceToken j key (r.header (codes "Authorization")) id
    → mqtt_auth j true next r (t, w) ≡ next r ((get_device_key true id t).0, w)
admitted j next r t w key id name known token =
    entered j next r w (get_device_key true (r.header (codes "Username")) t) _ key
      (ap (λ i. (get_device_key true i t).1) name ∙ known) (rw name token)
      (mqtt_auth-AdmitsDevice j true next r t w)
    ∙ ap (λ i. next r ((get_device_key true i t).0, w)) name

key_of_stored :
    (id : Bytes) (d : Device) (s : Server)
    → find_first (device_has (string_id id)) s.devices ≡ none
    → Cache.get id s.keys_cache ≡ none
    → (get_device_key true id (with_device id d s)).1 ≡ ok d.private_key
unfolding get_device_key
key_of_stored id d s n c = rw (c, stored_device id d s n, get_device_key) refl

-- A device whose creation has just been answered is let in: a request under its id, with a token
-- that the firmware made from the id and the key of the answer, passes the guard `MqttAuth` and
-- runs the handler behind it, as long as the token has not expired. The database answers, the id is
-- not in the key cache, and golang-jwt verifies what it has signed until the time of the claim `exp`.
pub create_device-mqtt_auth :
    (j : JwtLib) (broken : Bytes → Bytes) (next : Handler Server) (x : Environment) (r r' : Request)
    (s : Server) (w w' : Writer) (req : DeviceCreation) (random : Bytes)
    (exp iat now1 now2 time : ℕ)
    → Verifies j time
    → time < now1 + exp
    → AreBytes random
    → x.decode r.body ≡ some req
    → x.random ≡ some random
    → x.up 0 ≡ true
    → x.up 1 ≡ true
    → find_first (device_has (string_id (gen_device_id x.hex))) s.devices ≡ none
    → Cache.get (gen_device_id x.hex) s.keys_cache ≡ none
    → r'.header (codes "Username") ≡ gen_device_id x.hex
    → get_token j broken (encode64 random) exp iat (gen_device_id x.hex) now1 now2
      ≡ some (r'.header (codes "Authorization"))
    → let s' = (create_device x r (s, w)).0.0 in
      mqtt_auth j true next r' (s', w')
      ≡ next r' ((get_device_key true (gen_device_id x.hex) s').0, w')
create_device-mqtt_auth j broken next x r r' s w w' req random exp iat now1 now2 time law soon bytes
      d n up reads fresh cold name token =
    let id = gen_device_id x.hex in
    let dev = new_device x req (encode64 random) in
    let made : create_device x r (s, w) ≡ created x (insert_device id true true dev s) w =
      create_device_step x r s w req random d n
      ∙ ap (λ u. created x (insert_device id u (x.up 1) dev s) w) up
      ∙ ap (λ u. created x (insert_device id true u dev s) w) reads in
    let state : (create_device x r (s, w)).0.0 ≡ with_device id dev s =
      ap (λ e. e.0.0)
        (made
          ∙ ap (λ p. created x p w) (inserted id dev s fresh)
          ∙ created_ok x (with_device id dev s) (record dev { id = id }) w) in
    let known : (get_device_key true id (with_device id dev s)).1 ≡ ok (encode64 random) =
      key_of_stored id dev s fresh cold ∙ unfold new_device in refl in
    ap (λ t. mqtt_auth j true next r' (t, w')) state
    ∙ admitted j next r' (with_device id dev s) w' (encode64 random) id name known
        (get_token-IsDeviceToken j broken random id _ exp iat now1 now2 time law soon bytes token)
    ∙ ap (λ t. next r' ((get_device_key true id t).0, w')) (sym state)

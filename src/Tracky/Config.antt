-- ===== src/Tracky/Config.antt =====
-- tracky/src/trackeroo/config.go: the credentials of the firmware and the token that it presents.
-- The JSON decoder and golang-jwt are parameters.
pub mod Accepted
use trackeroo.Base.{ℕ, ◌+◌, Option, none, some, [], ◌∷◌, Bytes, codes, Dict, ℤ, pos, minus}
use trackeroo.Base.Base64.{decode64}
use trackeroo.Backend.Token.{JwtLib, Claim, str, num}

pub record Credentials : Type 0 where
  pub id : Bytes
  pub name : Bytes
  pub device_type : Bytes
  pub private_key : Bytes
  pub mqtt_host : Bytes
  pub mqtt_port : ℤ
  pub mqtt_mode : Bytes
  pub ca_cert : Bytes

-- The variable `Creds` before the call; the new value of `Creds`, which is also what is returned.
-- `unmarshal` fills what it can: its error is dropped.
unfoldable pub get_credentials :
    (Bytes → Credentials) → Option Bytes → Option Credentials → Option Credentials
get_credentials unmarshal file (some c) = some c
get_credentials unmarshal none none = none
get_credentials unmarshal (some text) none = some (unmarshal text)

-- The clock is read twice.
unfoldable pub device_claims : ℕ → ℕ → ℕ → ℕ → Bytes → Dict Claim
unfolding minus
device_claims now1 now2 exp iat sub =
    (codes "exp", num (pos (now1 + exp)))
    ∷ (codes "iat", num (minus now2 iat))
    ∷ (codes "sub", str sub)
    ∷ []

-- `broken` is what `DecodeString` gives beside an error, which is dropped.
unfoldable pub secret_of : (Bytes → Bytes) → Bytes → Bytes
secret_of broken key = elim (decode64 key) [ none ↦ broken key | some secret ↦ secret ]

unfoldable pub get_token : JwtLib → (Bytes → Bytes) → Bytes → ℕ → ℕ → Bytes → ℕ → ℕ → Option Bytes
unfolding device_claims secret_of
get_token j broken key exp iat sub now1 now2 =
    j.sign (secret_of broken key) (device_claims now1 now2 exp iat sub)

-- The file that is written: the certificate of the credentials, or nothing where there are none.
unfoldable pub create_ca_file : Option Credentials → Option Bytes
create_ca_file none = none
create_ca_file (some c) = some c.ca_cert

-- ===== src/Backend/Token.antt =====
-- trackeroo-backend/src/internal/service/token.go: the tokens of users and of devices.
-- golang-jwt is a parameter: `parse` verifies a token against the key that the key function gives
-- for the token's signing method, and `sign` makes one.
pub mod Acceptance
pub mod Keys
pub mod Issue
use trackeroo.Base.{
  ℕ, ◌+◌, ◌*◌, Bool, true, false, not, ◌&&◌, ◌||◌, Option, none, some, List, [], ◌∷◌, ◌++◌, ◌≡◌,
  refl, Bytes, codes, bytes_eq, Dict, lookup, cut, if◌then◌else◌, ℤ, pos,
}
use trackeroo.Base.Base64.{encode64, decode64}
use trackeroo.Backend.Model.{User}

-- A value of `jwt.MapClaims`.
pub data Claim : Type 0 where
  str : Bytes → Claim
  num : ℤ → Claim

pub data Method : Type 0 where
  hmac : Method
  other_method : Method

pub record Token : Type 0 where
  pub valid : Bool
  pub claims : Dict Claim

pub record JwtLib : Type 0 where
  pub parse : Bytes → (Method → Option Bytes) → Option Token
  pub sign : Bytes → Dict Claim → Option Bytes

pub data TokenError : Type 0 where
  bad_header parse_failed invalid_token bad_key no_key sign_failed : TokenError

-- What `os` says of a file, and the environment, where an unset variable is the empty text.
pub data File : Type 0 where
  absent : File
  unreadable : File
  contents : Bytes → File

pub record Host : Type 0 where
  pub file : Bytes → File
  pub env : Bytes → Bytes

unfoldable pub getenv_or_default : Host → Bytes → Bytes → Bytes
getenv_or_default h key def = elim (h.env key) [ [] ↦ def | c ∷ s ↦ c ∷ s ]

unfoldable pub file_exists : File → Bool
file_exists absent = false
file_exists unreadable = true
file_exists (contents _) = true

read_file : File → Option Bytes
read_file absent = none
read_file unreadable = none
read_file (contents b) = some b

-- an empty key is returned as nil
non_empty : Bytes → Option Bytes
non_empty [] = none
non_empty (c ∷ s) = some (c ∷ s)

unfoldable pub get_key : Host → Bytes → Option Bytes
unfolding getenv_or_default file_exists read_file non_empty
get_key h key =
    let run_path = h.file (codes "/run/secrets/" ++ key) in
    if file_exists run_path
    then read_file run_path
    else non_empty (getenv_or_default h (codes "USERS_KEY") [])

abbrev pub users_key : Bytes
users_key = codes "users_key"

abbrev pub day : ℕ
day = 24 * 3600

-- `now` is the clock's Unix time.
unfoldable pub user_claims : User → ℕ → Dict Claim
user_claims user now =
    (codes "user_id", str user.id)
    ∷ (codes "role", str user.role)
    ∷ (codes "exp", num (pos (now + day)))
    ∷ (codes "iat", num (pos now))
    ∷ []

pub data Signed : Type 0 where
  signed : Bytes → Dict Claim → Signed
  sign_error : TokenError → Signed

unfoldable pub signed_or : Option Bytes → Dict Claim → Signed
signed_or none claims = sign_error sign_failed
signed_or (some tok) claims = signed tok claims

unfoldable pub sign_with : JwtLib → Option Bytes → Dict Claim → Signed
unfolding signed_or
sign_with j none claims = sign_error no_key
sign_with j (some key) claims = signed_or (j.sign key claims) claims

unfoldable pub generate_jwt : JwtLib → Host → User → ℕ → Signed
unfolding sign_with
generate_jwt j h user now = sign_with j (get_key h users_key) (user_claims user now)

-- A nil key is handed to the library as an empty one.
abbrev pub nil_as_empty : Option Bytes → Bytes
nil_as_empty none = []
nil_as_empty (some k) = k

unfoldable pub hmac_only : Bytes → Method → Option Bytes
hmac_only key hmac = some key
hmac_only key other_method = none

-- `claims[k] == s`, a comparison of an interface value with a text
unfoldable pub claim_is : Option Claim → Bytes → Bool
claim_is none s = false
claim_is (some (str t)) s = bytes_eq t s
claim_is (some (num _)) s = false

check_role : Option Token → Bytes → Bool × Option TokenError
unfolding claim_is
check_role none role = (false, some parse_failed)
check_role (some tok) role =
    if not tok.valid || not (claim_is (lookup (codes "role") tok.claims) role)
    then (false, some invalid_token)
    else (true, none)

unfoldable pub validate_user_jwt : JwtLib → Host → Bytes → Bytes → Bool × Option TokenError
unfolding check_role hmac_only
validate_user_jwt j h auth_header role =
    let (scheme, rest, found) = cut b' ' auth_header in
    if not found
    then (false, some bad_header)
    else check_role (j.parse rest (hmac_only (nil_as_empty (get_key h users_key)))) role

unfoldable pub check_valid : Option Token → Bool × Dict Claim × Option TokenError
check_valid none = (false, [], some parse_failed)
check_valid (some tok) =
    if tok.valid then (true, tok.claims, none) else (false, [], some invalid_token)

device_token : JwtLib → Option Bytes → Bytes → Bool × Dict Claim × Option TokenError
unfolding check_valid hmac_only
device_token j none token = (false, [], some bad_key)
device_token j (some secret) token = check_valid (j.parse token (hmac_only secret))

unfoldable pub validate_device_jwt : JwtLib → Bytes → Bytes → Bool × Dict Claim × Option TokenError
unfolding device_token
validate_device_jwt j encoded_key token = device_token j (decode64 encoded_key) token

-- The test of both callers of `ValidateDeviceJWT`: `err != nil || !res || claims["sub"] != username`
unfoldable pub is_refused : Bytes → Bool × Dict Claim × Option TokenError → Bool
unfolding claim_is
is_refused username (res, claims, some e) = true
is_refused username (res, claims, none) =
    not res || not (claim_is (lookup (codes "sub") claims) username)

-- The argument is what `rand.Read` filled the 32 bytes with, or nothing where it failed.
unfoldable pub gen_private_key : Option Bytes → Option Bytes
gen_private_key none = none
gen_private_key (some random) = some (encode64 random)

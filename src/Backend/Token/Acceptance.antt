-- ===== src/Backend/Token/Acceptance.antt =====
-- Exactly which tokens service/token.go accepts.
use trackeroo.Base.{
  ◌≡◌, ◌↔◌, refl, ap, ◌∙◌, true, false, Option, none, some, ◌∷◌, ◌++◌, arith, Bytes, codes, lookup,
  bytes_eq_iff, cut, cut-append, cut_sound, Lacks, inl, inr, Bool-cases,
}
use trackeroo.Base.Base64.{decode64}
use trackeroo.Backend.Token.{
  JwtLib, Host, Token, Claim, str, num, hmac_only, nil_as_empty, get_key, users_key, claim_is,
  check_role, check_valid, device_token, is_refused, validate_user_jwt, validate_device_jwt,
}

-- The header is a scheme, a space and a token that the users' key verifies, with this role.
pub record Carries (j : JwtLib) (h : Host) (header role : Bytes) : Type 0 where
  pub scheme : Bytes
  pub token_text : Bytes
  pub token : Token
  pub shape : header ≡ scheme ++ b' ' ∷ token_text
  pub one_word : Lacks b' ' scheme
  pub parses : j.parse token_text (hmac_only (nil_as_empty (get_key h users_key))) ≡ some token
  pub is_valid : token.valid ≡ true
  pub has_role : lookup (codes "role") token.claims ≡ some (str role)

pub claim_is_sound : (c : Option Claim) (s : Bytes) → claim_is c s ≡ true → c ≡ some (str s)
unfolding claim_is
claim_is_sound none s e = cc
claim_is_sound (some (str t)) s e = ap (λ x. some (str x)) ((bytes_eq_iff t s).0 e)
claim_is_sound (some (num n)) s e = cc

pub claim_is_complete : (s : Bytes) → claim_is (some (str s)) s ≡ true
unfolding claim_is
claim_is_complete s = (bytes_eq_iff s s).1 refl

HasRole : Bytes → Token → Type 0
HasRole role tok = (tok.valid ≡ true) × (lookup (codes "role") tok.claims ≡ some (str role))

check_role_sound :
    (t : Option Token) (role : Bytes)
    → (check_role t role).0 ≡ true
    → (tok : Token) × (t ≡ some tok) × HasRole role tok
unfolding HasRole check_role
check_role_sound none role e = cc
check_role_sound (some tok) role e = (
  tok,
  refl,
  (ground arith, claim_is_sound (lookup (codes "role") tok.claims) role (ground arith)),
)

check_role_complete :
    (tok : Token) (role : Bytes) → HasRole role tok → check_role (some tok) role ≡ (true, none)
unfolding HasRole check_role
check_role_complete tok role (v, c) = rw (v, c, claim_is_complete role)

user_split :
    (j : JwtLib) (h : Host) (header role : Bytes)
    → (cut b' ' header).2 ≡ true
    → validate_user_jwt j h header role
      ≡ check_role
          (j.parse (cut b' ' header).1 (hmac_only (nil_as_empty (get_key h users_key))))
          role
unfolding validate_user_jwt
user_split j h header role e = rw e

user_unsplit :
    (j : JwtLib) (h : Host) (header role : Bytes)
    → (cut b' ' header).2 ≡ false
    → (validate_user_jwt j h header role).0 ≡ false
unfolding validate_user_jwt
user_unsplit j h header role e = rw e

Carries-header :
    (j : JwtLib) (h : Host) (header role : Bytes)
    → (cut b' ' header).2 ≡ true
    → (validate_user_jwt j h header role).0 ≡ true
    → Carries j h header role
unfolding HasRole
Carries-header j h header role f e =
    let (shape, one_word) = cut_sound b' ' header f in
    let (tok, parses, good) =
      check_role_sound
        (j.parse (cut b' ' header).1 (hmac_only (nil_as_empty (get_key h users_key)))) role
        (rw (user_split j h header role f) at e) in
    record {
      scheme = (cut b' ' header).0;
      token_text = (cut b' ' header).1;
      token = tok;
      shape = shape;
      one_word = one_word;
      parses = parses;
      is_valid = good.0;
      has_role = good.1;
    }

pub header-Carries :
    (j : JwtLib) (h : Host) (header role : Bytes)
    → Carries j h header role
    → validate_user_jwt j h header role ≡ (true, none)
unfolding HasRole
header-Carries j h header role c =
    let e : cut b' ' header ≡ (c.scheme, c.token_text, true) =
      ap (cut b' ') c.shape ∙ cut-append b' ' c.scheme c.token_text c.one_word in
    user_split j h header role (ap (λ t. t.2) e)
    ∙ ap (λ t. check_role (j.parse t.1 (hmac_only (nil_as_empty (get_key h users_key)))) role) e
    ∙ ap (λ t. check_role t role) c.parses
    ∙ check_role_complete c.token role (c.is_valid, c.has_role)

-- `ValidateUserJWT` accepts a header exactly when it is one word, a space and a text that the
-- library parses, under the key of the users and HMAC only, to a valid token whose claim `role` is
-- the wanted text; in every other case it returns false.
pub validate_user_jwt_iff :
    (j : JwtLib) (h : Host) (header role : Bytes)
    → ((validate_user_jwt j h header role).0 ≡ true) ↔ Carries j h header role
validate_user_jwt_iff j h header role =
    (accepted, λ c. ap (λ v. v.0) (header-Carries j h header role c))
  where
    accepted : (validate_user_jwt j h header role).0 ≡ true → Carries j h header role
    accepted e = elim (Bool-cases (cut b' ' header).2) [
      | inl f ↦ Carries-header j h header role f e
      | inr f ↦ absurd (not_both (user_unsplit j h header role f))
    ]
      where
        not_both : (validate_user_jwt j h header role).0 ≡ false → ⊥
        not_both g = cc

-- A token of a device: the stored key decodes to a secret under which the library parses the text
-- to a valid token, and the claim `sub` is the device.
pub record IsDeviceToken (j : JwtLib) (key text username : Bytes) : Type 0 where
  pub secret : Bytes
  pub token : Token
  pub decodes : decode64 key ≡ some secret
  pub parses : j.parse text (hmac_only secret) ≡ some token
  pub is_valid : token.valid ≡ true
  pub has_sub : lookup (codes "sub") token.claims ≡ some (str username)

valid_sound :
    (username : Bytes) (t : Option Token)
    → is_refused username (check_valid t) ≡ false
    → (tok : Token) × (t ≡ some tok)
      × (tok.valid ≡ true)
      × (lookup (codes "sub") tok.claims ≡ some (str username))
unfolding is_refused check_valid
valid_sound username none e = cc
valid_sound username (some tok) e = elim (Bool-cases tok.valid) [
  | inl v ↦ (tok, refl, v, claim_is_sound (lookup (codes "sub") tok.claims) username (ground arith))
  | inr v ↦ absurd (refused (ground arith))
]
  where
    refused : false ≡ true → ⊥
    refused g = cc

valid_complete :
    (username : Bytes) (tok : Token)
    → tok.valid ≡ true
    → lookup (codes "sub") tok.claims ≡ some (str username)
    → is_refused username (check_valid (some tok)) ≡ false
unfolding is_refused check_valid
valid_complete username tok v c = rw (v, c, claim_is_complete username)

decoded_sound :
    (j : JwtLib) (key : Option Bytes) (text username : Bytes)
    → is_refused username (device_token j key text) ≡ false
    → (secret : Bytes) × (key ≡ some secret)
      × (is_refused username (check_valid (j.parse text (hmac_only secret))) ≡ false)
unfolding is_refused device_token
decoded_sound j none text username e = cc
decoded_sound j (some secret) text username e = (secret, refl, e)

device_accepted :
    (j : JwtLib) (key text username : Bytes)
    → is_refused username (validate_device_jwt j key text) ≡ false
    → IsDeviceToken j key text username
unfolding validate_device_jwt
device_accepted j key text username e =
    let (secret, decodes, ok) = decoded_sound j (decode64 key) text username e in
    let (tok, parses, v, c) = valid_sound username (j.parse text (hmac_only secret)) ok in
    record {
      secret = secret;
      token = tok;
      decodes = decodes;
      parses = parses;
      is_valid = v;
      has_sub = c;
    }

device_admitted :
    (j : JwtLib) (key text username : Bytes)
    → IsDeviceToken j key text username
    → is_refused username (validate_device_jwt j key text) ≡ false
unfolding validate_device_jwt device_token
device_admitted j key text username d =
    rw (d.decodes, device_token, d.parses) (valid_complete username d.token d.is_valid d.has_sub)

-- The callers of `ValidateDeviceJWT` go on exactly when the stored key decodes, the library parses
-- the text under it, HMAC only, to a valid token, and the claim `sub` is the device that presents it.
pub is_refused_iff :
    (j : JwtLib) (key text username : Bytes)
    → (is_refused username (validate_device_jwt j key text) ≡ false)
      ↔ IsDeviceToken j key text username
is_refused_iff j key text username =
    (device_accepted j key text username, device_admitted j key text username)

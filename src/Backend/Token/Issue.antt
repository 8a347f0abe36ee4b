-- ===== src/Backend/Token/Issue.antt =====
-- A token that `GenerateJWT` of service/token.go makes, before `ValidateUserJWT`.
use trackeroo.Base.{
  ◌≡◌, ◌↔◌, refl, ap, ◌∙◌, sym, ℕ, true, Option, none, some, ◌∷◌, ◌++◌, Bytes, codes, bytes_eq,
  Dict, lookup, Lacks, cut, cut-append, Bool, false, if◌then◌else◌, leb, ◌+◌, ◌<◌, pos, negsuc,
  Bool-cases, inl, inr, arith,
}
use trackeroo.Backend.Model.{User}
use trackeroo.Backend.Token.{
  JwtLib, Host, Token, Claim, str, num, day, signed, sign_with, signed_or, hmac_only, nil_as_empty,
  get_key, users_key, user_claims, generate_jwt,
}
use trackeroo.Backend.Token.Acceptance.{Carries}

-- The library's test of the claim `exp`: it has passed at the time, or is no number.
unfoldable pub is_expired : ℕ → Dict Claim → Bool
unfolding lookup bytes_eq
is_expired time claims = elim (lookup (codes "exp") claims) [
  | none ↦ false
  | some v ↦ elim v [ str _ ↦ true | num n ↦ elim n [ pos e ↦ leb e time | negsuc _ ↦ true ] ]
]

-- What golang-jwt says at a time of a token that it has signed, under the same key: it is valid and
-- has the claims, or is an error where its time has expired.
abbrev pub Verifies : JwtLib → ℕ → Type 0
Verifies j time =
    (key tok : Bytes) (claims : Dict Claim)
    → j.sign key claims ≡ some tok
    → j.parse tok (hmac_only key)
      ≡ (if is_expired time claims then none else some (record { valid = true; claims = claims }))

signed_as :
    (t : Option Bytes) (claims made : Dict Claim) (tok : Bytes)
    → signed_or t claims ≡ signed tok made
    → t ≡ some tok
unfolding signed_or
signed_as none claims made tok e = cc
signed_as (some t) claims made tok e = cc

signed_key :
    (j : JwtLib) (k : Option Bytes) (claims made : Dict Claim) (tok : Bytes)
    → sign_with j k claims ≡ signed tok made
    → (key : Bytes) × (k ≡ some key) × (j.sign key claims ≡ some tok)
unfolding sign_with
signed_key j none claims made tok e = cc
signed_key j (some key) claims made tok e =
    (key, refl, signed_as (j.sign key claims) claims made tok e)

role_claim :
    (user : User) (now : ℕ) → lookup (codes "role") (user_claims user now) ≡ some (str user.role)
unfolding user_claims lookup bytes_eq
role_claim user now = refl

str-injective : (a b : Bytes) → some (str a) ≡ some (str b) → a ≡ b
str-injective a b e = cc

same_token : (a b : Token) → some a ≡ some b → a ≡ b
same_token a b e = cc

user_expiry :
    (user : User) (now time : ℕ) → is_expired time (user_claims user now) ≡ leb (now + day) time
unfolding is_expired user_claims
user_expiry user now time = refl

issued :
    (j : JwtLib) (h : Host) (user : User) (now time : ℕ) (tok : Bytes) (claims : Dict Claim)
    → Verifies j time
    → generate_jwt j h user now ≡ signed tok claims
    → j.parse tok (hmac_only (nil_as_empty (get_key h users_key))) ≡ (
        if leb (now + day) time
        then none
        else some (record { valid = true; claims = user_claims user now }))
unfolding generate_jwt
issued j h user now time tok claims law e =
    let (key, found, made) =
      signed_key j (get_key h users_key) (user_claims user now) claims tok e in
    ap (λ k. j.parse tok (hmac_only (nil_as_empty k))) found
    ∙ law key tok (user_claims user now) made
    ∙ ap (λ b. if b then none else some (record { valid = true; claims = user_claims user now }))
        (user_expiry user now time)

-- the token that a header of this scheme is parsed to
token_of :
    (j : JwtLib) (h : Host) (tok scheme role : Bytes)
    → Lacks b' ' scheme
    → (c : Carries j h (scheme ++ b' ' ∷ tok) role)
    → j.parse tok (hmac_only (nil_as_empty (get_key h users_key))) ≡ some c.token
token_of j h tok scheme role word c =
    let parts =
      sym (cut-append b' ' c.scheme c.token_text c.one_word)
      ∙ ap (cut b' ') (sym c.shape)
      ∙ cut-append b' ' scheme tok word in
    ap (λ t. j.parse t (hmac_only (nil_as_empty (get_key h users_key)))) (sym (ap (λ p. p.1) parts))
    ∙ c.parses

-- The header of a scheme, a space and a token that `GenerateJWT` has made for a user is accepted by
-- `ValidateUserJWT` for the role of that user and for no other, and only in the 24 hours after the
-- token was made. The scheme holds no space; the library verifies what it has signed until the time
-- of the claim `exp`, and no longer.
pub generate_jwt-Carries :
    (j : JwtLib) (h : Host) (user : User) (now time : ℕ) (tok scheme role : Bytes)
    (claims : Dict Claim)
    → Verifies j time
    → Lacks b' ' scheme
    → generate_jwt j h user now ≡ signed tok claims
    → Carries j h (scheme ++ b' ' ∷ tok) role ↔ (user.role ≡ role) × (time < now + day)
generate_jwt-Carries j h user now time tok scheme role claims law word e = (only, granted)
  where
    only : Carries j h (scheme ++ b' ' ∷ tok) role → (user.role ≡ role) × (time < now + day)
    only c =
        let got =
          sym (issued j h user now time tok claims law e) ∙ token_of j h tok scheme role word c in
        elim (Bool-cases (leb (now + day) time)) [
          | inl late ↦ absurd (let h = rw late at got in cc)
          | inr fresh ↦
              let made = same_token _ _ (rw fresh at got) in
              (
                str-injective user.role role (
                    sym (role_claim user now)
                    ∙ ap (λ t. lookup (codes "role") t.claims) made
                    ∙ c.has_role),
                ground (arith, fresh),
              )
        ]

    granted : (user.role ≡ role) × (time < now + day) → Carries j h (scheme ++ b' ' ∷ tok) role
    granted (r, soon) =
        let fresh : leb (now + day) time ≡ false = ground (arith, soon) in
        record {
          scheme = scheme;
          token_text = tok;
          token = record { valid = true; claims = user_claims user now };
          shape = refl;
          one_word = word;
          parses = rw fresh at (issued j h user now time tok claims law e);
          is_valid = refl;
          has_role = role_claim user now ∙ ap (λ x. some (str x)) r;
        }

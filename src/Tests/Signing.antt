-- ===== src/Tests/Signing.antt =====
-- A library of tokens that signs one list of claims and verifies what it has signed.
use trackeroo.Base.{
  ◌≡◌, ℕ, refl, ap, sym, Bool, true, false, ◌&&◌, Option, none, some, [], ◌∷◌, arith, codes, Bytes,
  bytes_eq, bytes_eq_iff, Dict, if◌then◌else◌, ◌==◌, ==_iff, ℤ, pos, negsuc,
}
use trackeroo.Backend.Token.{JwtLib, Token, Claim, str, num, hmac, hmac_only}
use trackeroo.Backend.Token.Issue.{Verifies, is_expired}

int_eq : ℤ → ℤ → Bool
int_eq (pos a) (pos b) = a == b
int_eq (negsuc a) (negsuc b) = a == b
int_eq _ _ = false

int_eq_sound : (a b : ℤ) → int_eq a b ≡ true → a ≡ b
unfolding int_eq
int_eq_sound (pos a) (pos b) e = ap pos ((==_iff a b).0 e)
int_eq_sound (pos a) (negsuc b) e = cc
int_eq_sound (negsuc a) (pos b) e = cc
int_eq_sound (negsuc a) (negsuc b) e = ap negsuc ((==_iff a b).0 e)

claim_eq : Claim → Claim → Bool
unfolding int_eq
claim_eq (str a) (str b) = bytes_eq a b
claim_eq (num a) (num b) = int_eq a b
claim_eq _ _ = false

dict_eq : Dict Claim → Dict Claim → Bool
unfolding claim_eq
dict_eq [] [] = true
dict_eq ((k, v) ∷ m) ((l, u) ∷ n) = bytes_eq k l && (claim_eq v u && dict_eq m n)
dict_eq _ _ = false

claim_eq_sound : (a b : Claim) → claim_eq a b ≡ true → a ≡ b
unfolding claim_eq
claim_eq_sound (str a) (str b) e = ap str ((bytes_eq_iff a b).0 e)
claim_eq_sound (str a) (num b) e = cc
claim_eq_sound (num a) (str b) e = cc
claim_eq_sound (num a) (num b) e = ap num (int_eq_sound a b e)

dict_eq_sound : (m n : Dict Claim) → dict_eq m n ≡ true → m ≡ n
unfolding dict_eq
dict_eq_sound [] [] e = refl
dict_eq_sound [] (p ∷ n) e = cc
dict_eq_sound (p ∷ m) [] e = cc
dict_eq_sound ((k, v) ∷ m) ((l, u) ∷ n) e =
    ground (arith, bytes_eq_iff k l, claim_eq_sound v u, dict_eq_sound m n)

signature : Bool → Option Bytes
signature b = if b then some (codes "signed") else none

verified : ℕ → Dict Claim → Option Bytes → Option Token
unfolding is_expired
verified time claims none = none
verified time claims (some key) =
    if is_expired time claims then none else some (record { valid = true; claims = claims })

signature_sound : (b : Bool) (tok : Bytes) → signature b ≡ some tok → b ≡ true
unfolding signature
signature_sound true tok e = refl
signature_sound false tok e = cc

-- the library at a time
unfoldable pub signer_of : ℕ → Dict Claim → JwtLib
unfolding verified signature dict_eq
signer_of time claims = record {
  parse = λ text key. verified time claims (key hmac);
  sign = λ key made. signature (dict_eq made claims);
}

pub signer_of-Verifies : (time : ℕ) (claims : Dict Claim) → Verifies (signer_of time claims) time
unfolding signer_of verified hmac_only
signer_of-Verifies time only key tok claims e =
    ap (λ c. if is_expired time c then none else some (record { valid = true; claims = c }))
      (sym (dict_eq_sound claims only (signature_sound (dict_eq claims only) tok e)))

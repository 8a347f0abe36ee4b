-- ===== src/Tracky/Config/Accepted.antt =====
-- The token of the firmware before the backend.
use trackeroo.Base.{
  ◌≡◌, refl, ap, sym, ◌∙◌, ℕ, ◌+◌, ◌<◌, arith, if◌then◌else◌, true, false, none, some, Bytes, codes,
  lookup, bytes_eq,
}
use trackeroo.Base.Base64.{AreBytes, encode64, decode64-encode64}
use trackeroo.Backend.Token.{JwtLib, str}
use trackeroo.Backend.Token.Acceptance.{IsDeviceToken}
use trackeroo.Backend.Token.Issue.{Verifies, is_expired}
use trackeroo.Tracky.Config.{get_token, device_claims, secret_of}

sub_claim :
    (now1 now2 exp iat : ℕ) (sub : Bytes)
    → lookup (codes "sub") (device_claims now1 now2 exp iat sub) ≡ some (str sub)
unfolding device_claims lookup bytes_eq
sub_claim now1 now2 exp iat sub = refl

secret_of_key :
    (broken : Bytes → Bytes) (random : Bytes)
    → AreBytes random
    → secret_of broken (encode64 random) ≡ random
unfolding secret_of
secret_of_key broken random h = rw (decode64-encode64 random h, secret_of) refl

device_expiry :
    (now1 now2 exp iat time : ℕ) (sub : Bytes)
    → time < now1 + exp
    → is_expired time (device_claims now1 now2 exp iat sub) ≡ false
unfolding is_expired device_claims
device_expiry now1 now2 exp iat time sub h = ground (arith, h)

-- A token that the firmware makes with a key of the backend - the Base64 text of any bytes - is a
-- token of the device for the backend, under that key and for the name that the firmware gives, as
-- long as it has not expired. The library is assumed to verify what it has signed until then.
pub get_token-IsDeviceToken :
    (j : JwtLib) (broken : Bytes → Bytes) (random sub tok : Bytes) (exp iat now1 now2 time : ℕ)
    → Verifies j time
    → time < now1 + exp
    → AreBytes random
    → get_token j broken (encode64 random) exp iat sub now1 now2 ≡ some tok
    → IsDeviceToken j (encode64 random) tok sub
unfolding get_token
get_token-IsDeviceToken j broken random sub tok exp iat now1 now2 time law soon h e = record {
  secret = random;
  token = record { valid = true; claims = device_claims now1 now2 exp iat sub };
  decodes = decode64-encode64 random h;
  parses =
      law random tok (device_claims now1 now2 exp iat sub) signed_so
      ∙ ap
          (λ b.
            if b
            then none
            else some (record { valid = true; claims = device_claims now1 now2 exp iat sub }))
          (device_expiry now1 now2 exp iat time sub soon);
  is_valid = refl;
  has_sub = sub_claim now1 now2 exp iat sub;
}
  where
    signed_so : j.sign random (device_claims now1 now2 exp iat sub) ≡ some tok
    signed_so =
        ap (λ k. j.sign k (device_claims now1 now2 exp iat sub))
          (sym (secret_of_key broken random h))
        ∙ e

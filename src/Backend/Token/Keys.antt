-- ===== src/Backend/Token/Keys.antt =====
-- The keys that service/token.go makes, and the tokens that are verified under them.
use trackeroo.Base.{◌≡◌, ap, ◌∙◌, sym, some, Bytes}
use trackeroo.Base.Base64.{AreBytes, encode64, decode64, decode64-encode64}
use trackeroo.Backend.Token.{
  JwtLib, hmac_only, check_valid, device_token, validate_device_jwt, gen_private_key,
}

encoded : (random key : Bytes) → gen_private_key (some random) ≡ some key → encode64 random ≡ key
unfolding gen_private_key
encoded random key e = cc

-- A token that is presented under a key of `GenPrivateKey` is verified against the very bytes that
-- the random source gave, whatever they are: the Base64 text of the key loses nothing.
pub validate_device_jwt-gen_private_key :
    (j : JwtLib) (random key text : Bytes)
    → AreBytes random
    → gen_private_key (some random) ≡ some key
    → validate_device_jwt j key text ≡ check_valid (j.parse text (hmac_only random))
unfolding validate_device_jwt device_token
validate_device_jwt-gen_private_key j random key text h e =
    ap (λ k. device_token j (decode64 k) text) (sym (encoded random key e))
    ∙ ap (λ k. device_token j k text) (decode64-encode64 random h)

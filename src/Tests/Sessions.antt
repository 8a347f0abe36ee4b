-- ===== src/Tests/Sessions.antt =====
-- A login of the user alice, with a library that signs her claims only.
use trackeroo.Base.{
  ◌≡◌, ◌↔◌, ◌+◌, ◌<◌, refl, true, none, some, ◌∷◌, ◌++◌, arith, codes, bytes_eq, Dict,
}
use trackeroo.Backend.Http.{Request, fresh_writer}
use trackeroo.Backend.Token.{
  day, JwtLib, Claim, signed, sign_with, signed_or, get_key, file_exists, user_claims, generate_jwt,
}
use trackeroo.Backend.Token.Acceptance.{Carries}
use trackeroo.Backend.Token.Issue.{generate_jwt-Carries}
use trackeroo.Backend.Login.{Environment, handle_login}
use trackeroo.Backend.Login.Granting.{LoginEnds, handle_login-LoginEnds}
use trackeroo.Tests.Signing.{signer_of, signer_of-Verifies}
use trackeroo.Tests.Accounts.{alice, server, toy_host}

abbrev one_claims : Dict Claim
one_claims = user_claims alice 0

abbrev signer : JwtLib
signer = signer_of 100 one_claims

signed_alice : generate_jwt signer toy_host alice 0 ≡ signed (codes "signed") one_claims
unfolding generate_jwt sign_with signed_or get_key file_exists signer_of bytes_eq user_claims
signed_alice = refl

generate_jwt-Carries_example :
    Carries signer toy_host (codes "Bearer" ++ b' ' ∷ codes "signed") (codes "admin")
    ↔ (alice.role ≡ codes "admin") × (100 < 0 + day)
generate_jwt-Carries_example =
    generate_jwt-Carries signer toy_host alice 0 100 (codes "signed") (codes "Bearer")
      (codes "admin") one_claims (signer_of-Verifies 100 one_claims) (omega arith) signed_alice

abbrev pub environment : Environment
environment = record {
  decode = λ body. some (record { username = codes "alice"; password = codes "hash" });
  decode_error = codes "EOF";
  sign_error_text = codes "key is of invalid type";
  matches = bytes_eq;
  now = 0;
  nanoseconds = 0;
}

abbrev request : Request
request = record {
  method = codes "POST";
  path = codes "/login/";
  header = λ k. codes "";
  query = λ k. codes "";
  path_value = λ k. codes "7f";
  form = none;
  body = some (codes "{}");
}

handle_login-LoginEnds_example :
    LoginEnds signer toy_host environment
      (λ n. true)
      request
      server
      fresh_writer
      (handle_login signer toy_host environment (λ n. true) request (server, fresh_writer))
handle_login-LoginEnds_example =
    handle_login-LoginEnds signer toy_host environment (λ n. true) request server fresh_writer

-- ===== src/Platform/Verifier/Tests.antt =====
-- platform/auth/jwks.go on a token format of plain words: a token is its own key id, a key its modulus.
use pegasus_suite.Prelude.{String, refl, true, some, none, [], ◌∷◌, str_eq, if◌then◌else◌}
use pegasus_suite.Prelude.Assoc.{lookup, insert, string_eq}
use pegasus_suite.Prelude.Int.{pos, ◌-ℤ◌}
use pegasus_suite.Prelude.Toy.{toy_time}
use pegasus_suite.Clients.{ok}
use pegasus_suite.Platform.Claims.{Claims, one_of}
use pegasus_suite.Platform.Verifier.{
  Jwt, Verifier, Outside, usable_keys, too_soon, replace_keys, refresh, look_again, key_for,
  check_claims, verified, parse,
}
use pegasus_suite.Platform.Verifier.Laws.{IsAccepted, parse-IsAccepted}

abbrev claims : Claims
claims = record {
  username = "jo";
  roles = "admin" ∷ [];
  subject = "u1";
  issuer = "session";
  audience = "suite" ∷ [];
}

abbrev jwt : Jwt
jwt = record {
  Key = String;
  header = λ raw. some (true, raw);
  verify = λ raw key. if str_eq key "modulus" then some claims else none;
  rsa_key = λ n e. if str_eq e "AQAB" then some n else none;
}

abbrev cold : Verifier jwt toy_time
cold = record {
  min_wait = pos 30;
  issuer = "session";
  audience = "suite";
  keys = [];
  last_fetch = pos 0;
}

abbrev outside : Outside toy_time
outside = record {
  now = pos 5;
  fetched = ok (record { kty = "RSA"; kid = "k1"; n = "modulus"; e = "AQAB" } ∷ []);
}

parse-IsAccepted_example : IsAccepted "k1" (parse "k1" outside cold).0 claims
unfolding parse key_for refresh too_soon usable_keys replace_keys look_again verified check_claims
    one_of lookup insert ◌-ℤ◌
parse-IsAccepted_example = parse-IsAccepted "k1" outside cold claims refl

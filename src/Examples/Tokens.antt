-- ===== src/Examples/Tokens.antt =====
-- Tokens at concrete values, with a signature that writes out the audience, the username and the
-- issuer.
use kite.Common.{
  nat_eq, Text, codes, text_eq, ok, ◌≤◌, ◌≡◌, refl, false, Option, some, [], ◌∷◌, ◌++◌, arith,
}
use kite.Common.Dict.{insert, lookup}
use kite.Kontrol.KeyPair.{KeyPair}
use kite.Kontrol.Token.{
  TokenRequest, Claims, TokenSettings, token_string, generate_token, expire, ttl_of, leeway_of,
}
use kite.Kontrol.Token.Lifetime.{Handed, Handed-generate_token}

abbrev key : KeyPair
key = record { id = codes "1"; public = codes "pub1"; private = codes "priv1" }

abbrev ask : Text → Text → TokenRequest
ask audience username = record {
  audience = audience;
  username = username;
  issuer = codes "koding";
  key_pair = key;
  force = false;
}

abbrev settings : TokenSettings
settings = record { token_ttl = 0; token_leeway = 0; token_no_nbf = false }

abbrev as_is : Text → Option Text
as_is private = some private

abbrev written : Text → Claims → Option Text
written private claims = some (claims.audience ++ b'|' ∷ claims.subject)

-- The user `math` and the audience of the kites of `prod` share a text with the user `h` and
-- another audience.
abbrev ask_math : TokenRequest
ask_math = ask (codes "/devrim/prod/") (codes "math")

abbrev ask_h : TokenRequest
ask_h = ask (codes "/devrim/prod/mat") (codes "h")

ask_shared : token_string ask_math ≡ token_string ask_h
unfolding token_string
ask_shared = refl

answered :
    (generate_token as_is written settings 0 (some (codes "u")) ask_math []).1
    ≡ ok (codes "/devrim/prod/|math")
unfolding generate_token lookup insert
answered = refl

leeway_is_short : leeway_of settings ≤ ttl_of settings
unfolding leeway_of ttl_of
leeway_is_short = omega arith

Handed-generate_token_example :
    Handed as_is written settings 7
      (generate_token as_is written settings 7 (some (codes "u")) ask_math (expire 7 []))
Handed-generate_token_example =
    Handed-generate_token as_is written settings 7 (some (codes "u")) ask_math [] leeway_is_short tt

-- ===== src/Examples/Verification.antt =====
-- Tokens and trusted keys at concrete values.
use package.kite.Request.Audience.{verify_audience}
use kite.Common.{
  if◌then◌else◌, Bool-cases, ◌==◌, ==_iff, nat_eq, Text, codes, text_beq, text_eq, cut_at, split_n,
  Result, ok, ℕ, ◌≡◌, refl, ◌↔◌, inl, inr, Bool, true, some, [], arith,
}
use kite.Common.Dict.{Dict, lookup, insert, lookup-insert}
use kite.Protocol.{kite_from_string, Kite, KontrolQuery}
use kite.Kontrol.QueryKey.{get_audience}
use kite.Request.Audience.{Names}
use kite.Request.Verify.{
  VerifyCache, Doubt, self_verify, Trust, verify, Parsed, parsed, not_parsed,
  authenticate_from_token,
}
use kite.Request.Verify.Trusted.{IsSound, OnlyVouched, verify-OnlyVouched}
use kite.Request.Verify.Granted.{
  IsGranted, authenticate_from_token-IsGranted, authenticate_from_token-get_audience,
}

abbrev verdicts : VerifyCache
verdicts = record {
  Entries = Dict Text Bool;
  get = lookup;
  set = insert;
  get-set = λ key other v c. lookup-insert key other v c;
}

-- The kite trusts the key "pub1" alone; asking does not change anything.
abbrev by_own_key : Text → ℕ → ℕ × Result Doubt Unit
by_own_key key w = (w, self_verify (codes "pub1") key)

abbrev any_rsa : Text → Result Text Text
any_rsa key = ok key

abbrev nothing_cached : Trust verdicts ℕ Text any_rsa by_own_key
nothing_cached = record { verify_cache = some []; world = 0 }

abbrev IsOwn : Text → Type 0
IsOwn key = key ≡ codes "pub1"

IsOwn-self_verify : (key : Text) (w : ℕ) → (by_own_key key w).1 ≡ ok tt → IsOwn key
unfolding self_verify
IsOwn-self_verify key w h = elim (Bool-cases (key == codes "pub1")) [
  | inl e ↦ (==_iff key (codes "pub1")).0 e
  | inr e ↦ absurd (ground (arith, e, h))
]

nothing_cached-IsSound : IsSound verdicts ℕ Text any_rsa by_own_key IsOwn nothing_cached
unfolding lookup
nothing_cached-IsSound key h = cc

verify-OnlyVouched_example :
    OnlyVouched verdicts ℕ Text any_rsa by_own_key IsOwn
      (codes "pub1")
      (verify verdicts ℕ Text any_rsa by_own_key (codes "pub1") nothing_cached)
verify-OnlyVouched_example =
    verify-OnlyVouched verdicts ℕ Text any_rsa by_own_key IsOwn IsOwn-self_verify (codes "pub1")
      nothing_cached nothing_cached-IsSound

abbrev math : Kite
math = record {
  name = codes "math";
  username = codes "devrim";
  id = codes "7f2c";
  environment = codes "prod";
  region = codes "eu";
  version = codes "1.0.0";
  hostname = codes "host";
}

abbrev named : KontrolQuery
named = record {
  username = codes "devrim";
  environment = codes "prod";
  name = [];
  version = [];
  region = [];
  hostname = [];
  id = [];
}

-- The one token that has been signed.
abbrev one_token : Text → Parsed
one_token key =
    if key == codes "token"
    then parsed true (record { subject = codes "ann"; audience = codes "/devrim/prod" })
    else not_parsed (codes "malformed")

authenticate_from_token-one_token :
    authenticate_from_token one_token math (codes "token") ≡ ok (codes "ann")
unfolding authenticate_from_token verify_audience text_beq kite_from_string split_n cut_at
authenticate_from_token-one_token = refl

authenticate_from_token-IsGranted_example :
    (authenticate_from_token one_token math (codes "token") ≡ ok (codes "ann"))
    ↔ IsGranted one_token math (codes "token") (codes "ann")
authenticate_from_token-IsGranted_example =
    authenticate_from_token-IsGranted one_token math (codes "token") (codes "ann")

one_token-get_audience :
    one_token (codes "token")
    ≡ parsed true (record { subject = codes "ann"; audience = get_audience named })
unfolding get_audience text_beq
one_token-get_audience = refl

authenticate_from_token-get_audience_example :
    (authenticate_from_token one_token math (codes "token") ≡ ok (codes "ann")) ↔ Names named math
authenticate_from_token-get_audience_example =
    authenticate_from_token-get_audience one_token math (codes "token") named (codes "ann") refl
      (refl, refl, refl) refl one_token-get_audience

-- ===== src/Request/Verify.antt =====
-- request.go: the authenticators for tokens and kite keys, and the check of the key that a kite key
-- was signed with. The proofs are in the modules below.
pub mod Trusted
pub mod Granted
use kite.Common.{
  ltb, leb, nat_beq, if◌then◌else◌, nat_beq_iff, Bool-cases, Option-cases, Result-cases, Eq, ◌==◌,
  ==_iff, ==_refl, nat_eq, Text, codes, text_beq, text_beq_iff, text_eq, is_empty, contains_byte,
  has_prefix, has_prefix-append, trim_space, contains_text, count_byte, cut_at, split_n, split,
  part, cut_at_here, cut_at-append, cut_at-none, split_n-append, split-append, split_whole,
  count_byte-append, count_byte_zero, count_byte_none, count_byte_here, Result, ok, err, ◌>>=◌,
  ◌>>◌, ℕ, zero, suc, ◌+◌, ◌-◌, ◌*◌, ◌/◌, ◌%◌, ◌^◌, ◌≤◌, ◌<◌, ◌≡◌, refl, sym, ap, ◌∙◌, ◌≢◌, ◌↔◌,
  ◌⊎◌, inl, inr, Bool, true, false, ◌&&◌, ◌||◌, not, Option, none, some, List, [], ◌∷◌, ◌++◌, map,
  append_assoc, append-nil, arith,
}
use kite.Protocol.{Kite}
use kite.Request.Audience.{AudienceError, verify_audience}

-- What the program uses of the cache with expiry of github.com/koding/cache. An entry that has
-- expired is one that is not there; the law is that of the moment of `set`.
pub record VerifyCache : Type 1 where
  pub Entries : Type 0
  pub get : Text → Entries → Option Bool
  pub set : Text → Bool → Entries → Entries
  pub get-set :
      (key other : Text) (v : Bool) (c : Entries)
      → get other (set key v c) ≡ (if key == other then some v else get other c)

-- `ErrKeyNotTrusted`, or another error of a verify function.
pub data Doubt : Type 0 where
  not_trusted : Doubt
  other_doubt : Text → Doubt

pub data VerifyError : Type 0 where
  no_kontrol_key invalid_kontrol_key : VerifyError
  bad_key : Text → VerifyError
  doubted : Doubt → VerifyError
  -- `Set` of a cache that is nil.
  nil_cache : VerifyError

-- `selfVerify`
unfoldable pub self_verify : Text → Text → Result Doubt Unit
self_verify our_key pub_key = if not (pub_key == our_key) then err not_trusted else ok tt

-- `Rsa` and `parse_rsa` are package jwt-go's; `verify_func` is the field `verifyFunc`, which may ask
-- Kontrol, so it reads and changes all else, `W`.
module _ (cache : VerifyCache) (W Rsa : Type 0) (parse_rsa : Text → Result Text Rsa)
    (verify_func : Text → W → W × Result Doubt Unit) where
  -- The cache, which is nil if `VerifyTTL` is below 0, and all else.
  pub record Trust : Type 0 where
    pub verify_cache : Option cache.Entries
    pub world : W

  -- `verifyCache.Get`
  abbrev pub cached_verdict : Text → Option cache.Entries → Option Bool
  cached_verdict key none = none
  cached_verdict key (some c) = cache.get key c

  -- `verifyCache.Set`, and then the answer.
  abbrev pub remember :
      Text
      → Bool
      → W
      → Result VerifyError Rsa
      → Option cache.Entries
      → Trust × Result VerifyError Rsa
  remember key v w answer none = (record { verify_cache = none; world = w }, err nil_cache)
  remember key v w answer (some c) =
      (record { verify_cache = some (cache.set key v c); world = w }, answer)

  -- What follows the call of `verifyFunc`.
  abbrev pub after_verify_func :
      Text → Rsa → Option cache.Entries → W × Result Doubt Unit → Trust × Result VerifyError Rsa
  after_verify_func key rsa c (w, ok _) = remember key true w (ok rsa) c
  after_verify_func key rsa c (w, err not_trusted) =
      remember key false w (err (doubted not_trusted)) c
  after_verify_func key rsa c (w, err (other_doubt e)) =
      (record { verify_cache = c; world = w }, err (doubted (other_doubt e)))

  abbrev pub by_verdict : Text → Rsa → Trust → Option Bool → Trust × Result VerifyError Rsa
  by_verdict key rsa s (some true) = (s, ok rsa)
  by_verdict key rsa s (some false) = (s, err invalid_kontrol_key)
  by_verdict key rsa s none = after_verify_func key rsa s.verify_cache (verify_func key s.world)

  abbrev pub by_rsa : Text → Trust → Result Text Rsa → Trust × Result VerifyError Rsa
  by_rsa key s (err e) = (s, err (bad_key e))
  by_rsa key s (ok rsa) = by_verdict key rsa s (cached_verdict key s.verify_cache)

  -- `verify` of the key that the claims of a kite key hold.
  unfoldable pub verify : Text → Trust → Trust × Result VerifyError Rsa
  verify key s = if is_empty key then (s, err no_kontrol_key) else by_rsa key s (parse_rsa key)

-- The claims that the authenticators read.
pub record TokenClaims : Type 0 where
  pub subject : Text
  pub audience : Text

-- What jwt.ParseWithClaims finds of a token under Kontrol's key: a signature of another key, another
-- error, or the claims with the token's flag `Valid`.
pub data Parsed : Type 0 where
  signature_invalid : Parsed
  not_parsed : Text → Parsed
  parsed : Bool → TokenClaims → Parsed

pub data TokenRefused : Type 0 where
  token_is_expired invalid_signature no_audience no_username : TokenRefused
  parse_error : Text → TokenRefused
  wrong_audience : AudienceError → TokenRefused

abbrev pub for_audience : Text → Result AudienceError Unit → Result TokenRefused Text
for_audience subject (ok _) = ok subject
for_audience subject (err e) = err (wrong_audience e)

abbrev pub by_claims : Kite → TokenClaims → Result TokenRefused Text
by_claims kite claims =
    if is_empty claims.audience
    then err no_audience
    else if is_empty claims.subject
    then err no_username
    else for_audience claims.subject (verify_audience kite claims.audience)

abbrev pub by_parsed : Kite → Parsed → Result TokenRefused Text
by_parsed kite signature_invalid = err token_is_expired
by_parsed kite (not_parsed e) = err (parse_error e)
by_parsed kite (parsed false claims) = err invalid_signature
by_parsed kite (parsed true claims) = by_claims kite claims

-- `AuthenticateFromToken` of a kite, with the default check of the audience. It answers with the
-- username that the request is given.
unfoldable pub authenticate_from_token : (Text → Parsed) → Kite → Text → Result TokenRefused Text
authenticate_from_token parse kite key = by_parsed kite (parse key)

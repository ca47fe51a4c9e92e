-- ===== src/Kontrol/Token.antt =====
-- kontrol/kontrol.go: the tokens that Kontrol signs, and the cache of those it has signed. The
-- proofs are in the modules below.
pub mod Lifetime
pub mod Sharing
use kite.Common.{
  ltb, leb, nat_beq, if◌then◌else◌, nat_beq_iff, Bool-cases, Option-cases, Result-cases, Eq, ◌==◌,
  ==_iff, ==_refl, nat_eq, Text, codes, text_beq, text_beq_iff, text_eq, is_empty, contains_byte,
  has_prefix, has_prefix-append, trim_space, contains_text, count_byte, cut_at, split_n, split,
  part, cut_at_here, cut_at-append, cut_at-none, split_n-append, split-append, split_whole,
  count_byte-append, count_byte_zero, count_byte_none, count_byte_here, Result, ok, err, ◌>>=◌,
  ◌>>◌, ℕ, zero, suc, ◌+◌, ◌-◌, ◌*◌, ◌/◌, ◌%◌, ◌^◌, ◌≤◌, ◌<◌, ◌≡◌, refl, sym, ap, ◌∙◌, ◌≢◌, ◌↔◌,
  ◌⊎◌, inl, inr, Bool, true, false, ◌&&◌, ◌||◌, not, Option, none, some, List, [], ◌∷◌, ◌++◌, map,
  append_assoc, append-nil, arith,
}
use kite.Common.Dict.{Dict, lookup, insert}
use kite.Kontrol.KeyPair.{KeyPair}

-- Times and durations are in nanoseconds, as Go's are; a claim's time is in seconds.
abbrev pub second : ℕ
second = 1000000000

-- `TokenTTL` and `TokenLeeway`
abbrev pub default_token_ttl : ℕ
default_token_ttl = 172800 * second

abbrev pub default_token_leeway : ℕ
default_token_leeway = 300 * second

-- The type `token`.
pub record TokenRequest : Type 0 where
  pub audience : Text
  pub username : Text
  pub issuer : Text
  pub key_pair : KeyPair
  pub force : Bool

-- `token.String`
unfoldable pub token_string : TokenRequest → Text
token_string t = t.audience ++ t.username ++ t.issuer ++ t.key_pair.id

-- `KiteClaims` of kitekey/kitekey.go, as far as `generateToken` sets it.
pub record Claims : Type 0 where
  pub issuer : Text
  pub subject : Text
  pub audience : Text
  pub expires_at : ℕ
  pub issued_at : ℕ
  pub not_before : Option ℕ
  pub id : Text

-- `cachedToken`, with the time at which its timer fires.
pub record CachedToken : Type 0 where
  pub signed : Text
  pub fires : ℕ

-- The fields of `Kontrol` that govern tokens.
pub record TokenSettings : Type 0 where
  pub token_ttl : ℕ
  pub token_leeway : ℕ
  pub token_no_nbf : Bool

pub data TokenError : Type 0 where
  bad_private_key no_uuid cannot_generate : TokenError

-- `tokenTTL`
unfoldable pub ttl_of : TokenSettings → ℕ
ttl_of k = if nat_beq k.token_ttl 0 then default_token_ttl else k.token_ttl

-- `tokenLeeway`
unfoldable pub leeway_of : TokenSettings → ℕ
leeway_of k = if nat_beq k.token_leeway 0 then default_token_leeway else k.token_leeway

abbrev pub TokenCache : Type 0
TokenCache = Dict Text CachedToken

-- The timers that have fired by `now` have deleted their entries.
unfoldable pub expire : ℕ → TokenCache → TokenCache
expire now [] = []
expire now ((key, ct) ∷ cache) =
    let rest = expire now cache in if leb ct.fires now then rest else (key, ct) ∷ rest

-- `cacheToken`. A timer of the key that is still running is stopped, as its entry is replaced. A
-- duration below 0 lets the new timer fire at once.
unfoldable pub cache_token : TokenSettings → ℕ → Text → Text → TokenCache → TokenCache
unfolding ttl_of leeway_of
cache_token k now key signed cache =
    insert key (record { signed = signed; fires = now + (ttl_of k - leeway_of k) }) cache

-- The claims of `generateToken`.
unfoldable pub claims_of : TokenSettings → ℕ → Text → TokenRequest → Claims
unfolding ttl_of leeway_of
claims_of k now id tok = record {
  issuer = tok.issuer;
  subject = tok.username;
  audience = tok.audience;
  expires_at = (now + ttl_of k + leeway_of k) / second;
  issued_at = (now - leeway_of k) / second;
  not_before = if k.token_no_nbf then none else some ((now - leeway_of k) / second);
  id = id;
}

-- `parse_private` and `sign` are package jwt-go's.
module _ {PrivateKey : Type 0} (parse_private : Text → Option PrivateKey)
    (sign : PrivateKey → Claims → Option Text) where
  abbrev signed_as :
      TokenSettings → ℕ → Text → TokenCache → Option Text → TokenCache × Result TokenError Text
  signed_as k now key cache none = (cache, err cannot_generate)
  signed_as k now key cache (some signed) = (cache_token k now key signed cache, ok signed)

  abbrev sign_with :
      TokenSettings
      → ℕ
      → Option Text
      → TokenRequest
      → TokenCache
      → Option PrivateKey
      → TokenCache × Result TokenError Text
  sign_with k now uuid tok cache none = (cache, err bad_private_key)
  sign_with k now none tok cache (some private) = (cache, err no_uuid)
  sign_with k now (some id) tok cache (some private) =
      signed_as k now (token_string tok) cache (sign private (claims_of k now id tok))

  abbrev from_cache :
      Bool
      → Option CachedToken
      → TokenCache × Result TokenError Text
      → TokenCache
      → TokenCache × Result TokenError Text
  from_cache false (some ct) fresh cache = (cache, ok ct.signed)
  from_cache false none fresh cache = fresh
  from_cache true _ fresh cache = fresh

  -- `generateToken`, at time `now`, with what uuid.NewV4 returns. The cache is the one that the
  -- timers have left (`expire`).
  unfoldable pub generate_token :
      TokenSettings
      → ℕ
      → Option Text
      → TokenRequest
      → TokenCache
      → TokenCache × Result TokenError Text
  unfolding token_string claims_of cache_token
  generate_token k now uuid tok cache =
      from_cache tok.force (lookup (token_string tok) cache)
        (sign_with k now uuid tok cache (parse_private tok.key_pair.private)) cache

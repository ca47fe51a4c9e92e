-- ===== src/Kontrol/Token/Sharing.antt =====
-- Which requests share a token.
use kite.Common.{
  nat_eq, Text, text_beq_iff, text_eq, Result, ok, ℕ, ◌+◌, ◌-◌, ◌≡◌, refl, ap, ◌∙◌, Bool, true,
  false, Option, none, some, arith,
}
use kite.Common.Dict.{lookup, lookup-insert}
use kite.Kontrol.Token.{
  ttl_of, leeway_of, TokenRequest, Claims, CachedToken, TokenSettings, TokenError, TokenCache,
  token_string, claims_of, cache_token, signed_as, sign_with, from_cache, generate_token,
}

lookup-cache_token :
    (k : TokenSettings) (now : ℕ) (key signed : Text) (cache : TokenCache)
    → (ct : CachedToken) × (lookup key (cache_token k now key signed cache) ≡ some ct)
      × (ct.signed ≡ signed)
unfolding cache_token
lookup-cache_token k now key signed cache = (
  record { signed = signed; fires = now + (ttl_of k - leeway_of k) },
  lookup-insert key key (record { signed = signed; fires = now + (ttl_of k - leeway_of k) }) cache
      ∙ ground (arith, text_beq_iff key key),
  refl,
)

module _ {PrivateKey : Type 0} (parse_private : Text → Option PrivateKey)
    (sign : PrivateKey → Claims → Option Text) where
  abbrev Holds : Text → Text → TokenCache → Type 0
  Holds key s cache = (ct : CachedToken) × (lookup key cache ≡ some ct) × (ct.signed ≡ s)

  Holds-signed_as :
      (k : TokenSettings) (now : ℕ) (key : Text) (cache : TokenCache) (o : Option Text) (s : Text)
      → (signed_as parse_private sign k now key cache o).1 ≡ ok s
      → Holds key s (signed_as parse_private sign k now key cache o).0
  Holds-signed_as k now key cache none s h = cc
  Holds-signed_as k now key cache (some signed) s h =
      let (ct, e, g) = lookup-cache_token k now key signed cache in
      let same : signed ≡ s = cc in (ct, e, g ∙ same)

  Holds-from_cache :
      (key : Text) (s : Text) (cache : TokenCache) (fresh : TokenCache × Result TokenError Text)
      (force : Bool) (o : Option CachedToken)
      → lookup key cache ≡ o
      → (fresh.1 ≡ ok s → Holds key s fresh.0)
      → (from_cache parse_private sign force o fresh cache).1 ≡ ok s
      → Holds key s (from_cache parse_private sign force o fresh cache).0
  Holds-from_cache key s cache fresh false none e rest h = rest h
  Holds-from_cache key s cache fresh false (some ct) e rest h = (ct, e, cc)
  Holds-from_cache key s cache fresh true o e rest h = rest h

  Holds-sign_with :
      (k : TokenSettings) (now : ℕ) (uuid : Option Text) (tok : TokenRequest) (cache : TokenCache)
      (private : Option PrivateKey) (s : Text)
      → (sign_with parse_private sign k now uuid tok cache private).1 ≡ ok s
      → Holds (token_string tok) s (sign_with parse_private sign k now uuid tok cache private).0
  Holds-sign_with k now uuid tok cache none s h = cc
  Holds-sign_with k now none tok cache (some private) s h = cc
  Holds-sign_with k now (some id) tok cache (some private) s h =
      Holds-signed_as k now (token_string tok) cache (sign private (claims_of k now id tok)) s h

  -- What `generateToken` has handed out stands in the cache under the request's key.
  Holds-generate_token :
      (k : TokenSettings) (now : ℕ) (uuid : Option Text) (tok : TokenRequest) (cache : TokenCache)
      (s : Text)
      → (generate_token parse_private sign k now uuid tok cache).1 ≡ ok s
      → Holds (token_string tok) s (generate_token parse_private sign k now uuid tok cache).0
  unfolding generate_token
  Holds-generate_token k now uuid tok cache s h =
      Holds-from_cache (token_string tok) s cache _ tok.force _ refl
        (Holds-sign_with k now uuid tok cache (parse_private tok.key_pair.private) s) h

  generate_token_cached :
      (k : TokenSettings) (now : ℕ) (uuid : Option Text) (tok : TokenRequest) (cache : TokenCache)
      (ct : CachedToken)
      → tok.force ≡ false
      → lookup (token_string tok) cache ≡ some ct
      → generate_token parse_private sign k now uuid tok cache ≡ (cache, ok ct.signed)
  unfolding generate_token
  generate_token_cached k now uuid tok cache ct calm e = ground (arith, calm, e)

  -- After a request was answered with a token, and before the cache loses it, a request that is not
  -- forced is answered with the very same token if `token_string` gives the same text for both.
  pub generate_token-shared :
      (k : TokenSettings) (now later : ℕ) (uuid uuid' : Option Text) (tok tok' : TokenRequest)
      (cache : TokenCache) (s : Text)
      → token_string tok ≡ token_string tok'
      → tok'.force ≡ false
      → (generate_token parse_private sign k now uuid tok cache).1 ≡ ok s
      → (generate_token parse_private sign k later uuid' tok'
          (generate_token parse_private sign k now uuid tok cache).0).1
        ≡ ok s
  generate_token-shared k now later uuid uuid' tok tok' cache s same calm h =
      let (ct, e, g) = Holds-generate_token k now uuid tok cache s h in
      ap (λ (r : TokenCache × Result TokenError Text). r.1)
        (generate_token_cached k later uuid' tok' _ ct calm (rw (← same) e))
      ∙ ap ok g

-- ===== src/Kontrol/Token/Lifetime.antt =====
-- How long a token that Kontrol hands out is still good for.
use kite.Common.{
  leb, Bool-cases, nat_eq, Text, text_beq, text_eq, Result, ok, err, ℕ, ◌+◌, ◌-◌, ◌*◌, ◌/◌, ◌≤◌,
  ◌<◌, ◌≡◌, refl, inl, inr, Bool, true, false, Option, none, some, [], ◌∷◌, arith,
}
use mathlib.Core.Path.{subst}
use kite.Common.Dict.{lookup, insert}
use kite.Kontrol.Token.{
  TokenRequest, Claims, CachedToken, TokenSettings, TokenError, TokenCache, second, ttl_of,
  leeway_of, token_string, claims_of, cache_token, signed_as, sign_with, from_cache, generate_token,
  expire,
}

module _ {PrivateKey : Type 0} (parse_private : Text → Option PrivateKey)
    (sign : PrivateKey → Claims → Option Text) (k : TokenSettings) where
  -- The text is a signature of claims that expire no sooner than twice the leeway after `at`.
  abbrev pub GoodAfter : ℕ → Text → Type 0
  GoodAfter at signed =
      (private : PrivateKey) × (claims : Claims) × (sign private claims ≡ some signed)
      × ((at + 2 * leeway_of k) / second ≤ claims.expires_at)

  -- Each cached token is good for twice the leeway when its timer fires.
  abbrev pub IsFresh : TokenCache → Type 0
  IsFresh [] = Unit
  IsFresh ((key, ct) ∷ cache) = GoodAfter ct.fires ct.signed × IsFresh cache

  -- A cache whose timers have not fired.
  abbrev IsLive : ℕ → TokenCache → Type 0
  IsLive now [] = Unit
  IsLive now ((key, ct) ∷ cache) = (now < ct.fires) × IsLive now cache

  div_mono : (a b : ℕ) → a ≤ b → a / second ≤ b / second
  div_mono a b h = omega arith

  GoodAfter-mono : (a b : ℕ) (s : Text) → a ≤ b → GoodAfter b s → GoodAfter a s
  GoodAfter-mono a b s h (p, c, e, g) =
      (p, c, e, omega (arith, div_mono (a + 2 * leeway_of k) (b + 2 * leeway_of k)))

  IsLive-expire : (now : ℕ) (cache : TokenCache) → IsLive now (expire now cache)
  unfolding expire
  IsLive-expire now [] = tt
  IsLive-expire now ((key, ct) ∷ cache) = elim (Bool-cases (leb ct.fires now)) [
    | inl e ↦ rw (e, expire) (IsLive-expire now cache)
    | inr e ↦ rw (e, expire) (ground arith, IsLive-expire now cache)
  ]

  IsFresh-expire : (now : ℕ) (cache : TokenCache) → IsFresh cache → IsFresh (expire now cache)
  unfolding expire
  IsFresh-expire now [] h = tt
  IsFresh-expire now ((key, ct) ∷ cache) h = elim (Bool-cases (leb ct.fires now)) [
    | inl e ↦ rw (e, expire) (IsFresh-expire now cache h.1)
    | inr e ↦ rw (e, expire) (h.0, IsFresh-expire now cache h.1)
  ]

  IsFresh-insert :
      (key : Text) (ct : CachedToken) (cache : TokenCache)
      → GoodAfter ct.fires ct.signed
      → IsFresh cache
      → IsFresh (insert key ct cache)
  unfolding insert
  IsFresh-insert key ct [] g h = (g, tt)
  IsFresh-insert key ct ((j, w) ∷ cache) g h = elim (Bool-cases (text_beq j key)) [
    | inl e ↦ rw (e, insert) (g, h.1)
    | inr e ↦ rw (e, insert) (h.0, IsFresh-insert key ct cache g h.1)
  ]

  good_of_lookup :
      (now : ℕ) (key : Text) (cache : TokenCache) (ct : CachedToken)
      → IsLive now cache
      → IsFresh cache
      → lookup key cache ≡ some ct
      → GoodAfter now ct.signed
  unfolding lookup
  good_of_lookup now key [] ct l h e = cc
  good_of_lookup now key ((j, w) ∷ cache) ct l h e = elim (Bool-cases (text_beq j key)) [
    | inl q ↦
        let same : w ≡ ct = ground (arith, q, e) in
        subst (λ (x : CachedToken). GoodAfter now x.signed) same
          (GoodAfter-mono now w.fires w.signed (omega (arith, l.0)) h.0)
    | inr q ↦ good_of_lookup now key cache ct l.1 h.1 (ground (arith, q, e))
  ]

  abbrev pub Handed : ℕ → TokenCache × Result TokenError Text → Type 0
  Handed now (cache, ok s) = IsFresh cache × GoodAfter now s
  Handed now (cache, err e) = IsFresh cache

  claims_good :
      (now : ℕ) (id : Text) (tok : TokenRequest)
      → leeway_of k ≤ ttl_of k
      → ((now + (ttl_of k - leeway_of k)) + 2 * leeway_of k) / second
        ≤ (claims_of k now id tok).expires_at
  unfolding claims_of
  claims_good now id tok h = omega arith

  Handed-signed_as :
      (now : ℕ) (id : Text) (tok : TokenRequest) (cache : TokenCache) (private : PrivateKey)
      (o : Option Text)
      → sign private (claims_of k now id tok) ≡ o
      → leeway_of k ≤ ttl_of k
      → IsFresh cache
      → Handed now (signed_as parse_private sign k now (token_string tok) cache o)
  unfolding cache_token
  Handed-signed_as now id tok cache private none e l h = h
  Handed-signed_as now id tok cache private (some s) e l h =
      let good : GoodAfter (now + (ttl_of k - leeway_of k)) s =
        (private, claims_of k now id tok, e, claims_good now id tok l) in
      (
        IsFresh-insert (token_string tok) _ cache good h,
        GoodAfter-mono now (now + (ttl_of k - leeway_of k)) s (omega arith) good,
      )

  Handed-sign_with :
      (now : ℕ) (uuid : Option Text) (tok : TokenRequest) (cache : TokenCache)
      (private : Option PrivateKey)
      → leeway_of k ≤ ttl_of k
      → IsFresh cache
      → Handed now (sign_with parse_private sign k now uuid tok cache private)
  Handed-sign_with now uuid tok cache none l h = h
  Handed-sign_with now none tok cache (some private) l h = h
  Handed-sign_with now (some id) tok cache (some private) l h =
      Handed-signed_as now id tok cache private _ refl l h

  Handed-from_cache :
      (now : ℕ) (key : Text) (cache : TokenCache) (fresh : TokenCache × Result TokenError Text)
      (force : Bool) (o : Option CachedToken)
      → lookup key cache ≡ o
      → IsLive now cache
      → IsFresh cache
      → Handed now fresh
      → Handed now (from_cache parse_private sign force o fresh cache)
  Handed-from_cache now key cache fresh false none e l h f = f
  Handed-from_cache now key cache fresh false (some ct) e l h f =
      (h, good_of_lookup now key cache ct l h e)
  Handed-from_cache now key cache fresh true o e l h f = f

  -- If the leeway is no longer than the lifetime of a token, every token that `generateToken` hands
  -- out, cached or new, is a signature of claims that expire no sooner than twice the leeway later,
  -- and the cache stays such that this holds of the next request too, after an error as well.
  pub Handed-generate_token :
      (now : ℕ) (uuid : Option Text) (tok : TokenRequest) (cache : TokenCache)
      → leeway_of k ≤ ttl_of k
      → IsFresh cache
      → Handed now (generate_token parse_private sign k now uuid tok (expire now cache))
  unfolding generate_token
  Handed-generate_token now uuid tok cache l h =
      Handed-from_cache now (token_string tok) (expire now cache) _ tok.force _ refl
        (IsLive-expire now cache) (IsFresh-expire now cache h)
        (Handed-sign_with now uuid tok (expire now cache) (parse_private tok.key_pair.private) l
          (IsFresh-expire now cache h))

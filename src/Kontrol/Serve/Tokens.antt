-- ===== src/Kontrol/Serve/Tokens.antt =====
-- The tokens that queries for kites and tokens are answered with.
use kite.Common.{
  nat_eq, Text, text_eq, Result, ok, err, ℕ, ◌≤◌, ◌≡◌, sym, Bool, Option, List, [], ◌∷◌, arith,
  refl, false,
}
use mathlib.Core.Path.{subst}
use kite.Protocol.{KontrolQuery, KiteWithToken}
use kite.Kontrol.KeyPair.{KeyPair, KeyPairError}
use kite.Kontrol.Keys.{Keys}
use kite.Kontrol.Token.{TokenCache, TokenError, leeway_of, ttl_of}
use kite.Kontrol.Token.Lifetime.{GoodAfter, IsFresh, Handed, Handed-generate_token}
use kite.Kontrol.Serve.{
  more_than_one_kite, no_kites, only_kite, handle_get_token, tokens_for, handle_get_kites,
  with_token, storage_failed, with_rest, Setup, ServeError, Serving, with_found,
  get_or_update_key_id, token_request, kept, sign_for, token_for,
}

module _ (setup : Setup) where
  open setup use {parse_private, sign, settings, storage_get}

  abbrev pub Good : ℕ → Text → Type 0
  Good now t = GoodAfter parse_private sign settings now t

  abbrev pub Fresh : TokenCache → Type 0
  Fresh cache = IsFresh parse_private sign settings cache

  -- The kites as they were found, each with a token that is good.
  pub data WithTokens (now : ℕ) : List KiteWithToken → List KiteWithToken → Type 0 where
    nil : WithTokens now [] []
    cons :
        {kite : KiteWithToken} {kites got : List KiteWithToken} (t : Text)
        → Good now t
        → WithTokens now kites got
        → WithTokens now (kite ∷ kites) (record kite { token = t } ∷ got)

  abbrev pub GoodToken : ℕ → Serving setup × Result ServeError Text → Type 0
  GoodToken now (s, ok t) = Fresh s.tokens × Good now t
  GoodToken now (s, err e) = Fresh s.tokens

  abbrev pub GoodKites :
      ℕ → List KiteWithToken → Serving setup × Result ServeError (List KiteWithToken) → Type 0
  GoodKites now kites (s, ok got) = Fresh s.tokens × WithTokens now kites got
  GoodKites now kites (s, err e) = Fresh s.tokens

  GoodToken-kept :
      (now : ℕ) (s : Serving setup) (x : TokenCache × Result TokenError Text)
      → Handed parse_private sign settings now x
      → GoodToken now (kept setup s x)
  GoodToken-kept now s (tokens, ok t) h = h
  GoodToken-kept now s (tokens, err e) h = h

  GoodToken-sign_for :
      (q : KontrolQuery) (username : Text) (force : Bool) (now : ℕ) (uuid : Option Text)
      (x : Serving setup × Result ServeError KeyPair)
      → leeway_of settings ≤ ttl_of settings
      → Fresh x.0.tokens
      → GoodToken now (sign_for setup q username force now uuid x)
  GoodToken-sign_for q username force now uuid (s, err e) short f = f
  GoodToken-sign_for q username force now uuid (s, ok kp) short f = GoodToken-kept now s _ (
      Handed-generate_token parse_private sign settings now uuid
        (token_request setup q username force kp) s.tokens short f)

  tokens-with_found :
      (s : Serving setup) (keys : Keys setup.st setup.fresh) (r : Result KeyPairError KeyPair)
      → (with_found setup s keys r).0.tokens ≡ s.tokens
  tokens-with_found s keys r = ground arith

  tokens-get_or_update_key_id :
      (id : Text) (s : Serving setup) → (get_or_update_key_id setup id s).0.tokens ≡ s.tokens
  unfolding get_or_update_key_id
  tokens-get_or_update_key_id id s = ground arith

  GoodToken-token_for :
      (q : KontrolQuery) (username : Text) (force : Bool) (now : ℕ) (uuid : Option Text) (id : Text)
      (s : Serving setup)
      → leeway_of settings ≤ ttl_of settings
      → Fresh s.tokens
      → GoodToken now (token_for setup q username force now uuid id s)
  unfolding token_for
  GoodToken-token_for q username force now uuid id s short f =
      GoodToken-sign_for q username force now uuid (get_or_update_key_id setup id s) short
        (subst Fresh (sym (tokens-get_or_update_key_id id s)) f)

  GoodKites-with_rest :
      (now : ℕ) (kite : KiteWithToken) (kites : List KiteWithToken) (t : Text)
      (x : Serving setup × Result ServeError (List KiteWithToken))
      → Good now t
      → GoodKites now kites x
      → GoodKites now (kite ∷ kites) (with_rest setup (record kite { token = t }) x)
  GoodKites-with_rest now kite kites t (s, ok got) g (f, all) = (f, cons t g all)
  GoodKites-with_rest now kite kites t (s, err e) g f = f

  GoodKites-with_token :
      (now : ℕ) (kite : KiteWithToken) (kites : List KiteWithToken)
      (rest : Serving setup → Serving setup × Result ServeError (List KiteWithToken))
      (x : Serving setup × Result ServeError Text)
      → ((s : Serving setup) → Fresh s.tokens → GoodKites now kites (rest s))
      → GoodToken now x
      → GoodKites now (kite ∷ kites) (with_token setup kite rest x)
  GoodKites-with_token now kite kites rest (s, ok t) all (f, g) =
      GoodKites-with_rest now kite kites t (rest s) g (all s f)
  GoodKites-with_token now kite kites rest (s, err e) all f = f

  GoodKites-tokens_for :
      (q : KontrolQuery) (username : Text) (now : ℕ) (uuid : KiteWithToken → Option Text)
      (kites : List KiteWithToken) (s : Serving setup)
      → leeway_of settings ≤ ttl_of settings
      → Fresh s.tokens
      → GoodKites now kites (tokens_for setup q username now uuid kites s)
  unfolding tokens_for
  GoodKites-tokens_for q username now uuid [] s short f = (f, nil)
  GoodKites-tokens_for q username now uuid (kite ∷ kites) s short f =
      GoodKites-with_token now kite kites (tokens_for setup q username now uuid kites)
        (token_for setup q username false now (uuid kite) kite.key_id s)
        (λ s' f'. GoodKites-tokens_for q username now uuid kites s' short f')
        (GoodToken-token_for q username false now (uuid kite) kite.key_id s short f)

  -- What `HandleGetKites` answers, by what the storage finds.
  abbrev pub KitesAnswer :
      ℕ
      → Serving setup
      → Result Text (List KiteWithToken)
      → Serving setup × Result ServeError (List KiteWithToken)
      → Type 0
  KitesAnswer now s (ok kites) x = GoodKites now kites x
  KitesAnswer now s (err e) x = x ≡ (s, err (storage_failed e))

  -- If the leeway is no longer than the lifetime of a token, `HandleGetKites` either fails or answers
  -- with all the kites that the storage finds for the query, in their order and unchanged but for a
  -- token each, and each token is a signature of claims that expire no sooner than twice the leeway
  -- later. The token cache stays such that this holds of the next request too, after an error as well.
  pub handle_get_kites-KitesAnswer :
      (q : KontrolQuery) (username : Text) (now : ℕ) (uuid : KiteWithToken → Option Text)
      (s : Serving setup)
      → leeway_of settings ≤ ttl_of settings
      → Fresh s.tokens
      → KitesAnswer now s (storage_get q) (handle_get_kites setup (ok q) username now uuid s)
  unfolding handle_get_kites
  handle_get_kites-KitesAnswer q username now uuid s short f = by_kites (storage_get q)
    where
      by_kites :
          (o : Result Text (List KiteWithToken))
          → KitesAnswer now s o (elim o [
            | err e ↦ (s, err (storage_failed e))
            | ok kites ↦ tokens_for setup q username now uuid kites s
          ])
      by_kites (err e) = refl
      by_kites (ok kites) = GoodKites-tokens_for q username now uuid kites s short f

  -- What `HandleGetToken` answers, by what the storage finds.
  abbrev pub TokenAnswer :
      ℕ
      → Serving setup
      → Result Text (List KiteWithToken)
      → Serving setup × Result ServeError Text
      → Type 0
  TokenAnswer now s (err e) x = x ≡ (s, err (storage_failed e))
  TokenAnswer now s (ok []) x = x ≡ (s, err no_kites)
  TokenAnswer now s (ok (kite ∷ [])) x = GoodToken now x
  TokenAnswer now s (ok (kite ∷ other ∷ kites)) x = x ≡ (s, err more_than_one_kite)

  -- If the leeway is no longer than the lifetime of a token, `HandleGetToken` fails and changes
  -- nothing unless the storage finds exactly one kite for the query; for that one it fails or answers
  -- with a token, forced or not, that is a signature of claims that expire no sooner than twice the
  -- leeway later. The token cache stays such that this holds of the next request too.
  pub handle_get_token-TokenAnswer :
      (q : KontrolQuery) (force : Bool) (username : Text) (now : ℕ) (uuid : Option Text)
      (s : Serving setup)
      → leeway_of settings ≤ ttl_of settings
      → Fresh s.tokens
      → TokenAnswer now s
          (storage_get q)
          (handle_get_token setup (ok (q, force)) username now uuid s)
  unfolding handle_get_token
  handle_get_token-TokenAnswer q force username now uuid s short f = by_kites (storage_get q)
    where
      by_kites :
          (o : Result Text (List KiteWithToken))
          → TokenAnswer now s o (only_kite setup q username force now uuid s o)
      by_kites (err e) = refl
      by_kites (ok []) = refl
      by_kites (ok (kite ∷ [])) =
          GoodToken-token_for q username force now uuid kite.key_id s short f
      by_kites (ok (kite ∷ other ∷ kites)) = refl

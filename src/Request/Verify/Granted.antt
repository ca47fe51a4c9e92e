-- ===== src/Request/Verify/Granted.antt =====
-- Which tokens a kite accepts.
use kite.Common.{
  Bool-cases, nat_eq, Text, text_eq, is_empty, Result, ok, err, ◌≡◌, refl, sym, ap, ◌∙◌, ◌↔◌, inl,
  inr, true, false, [], arith,
}
use mathlib.Core.Path.{subst}
use kite.Protocol.{Kite, KontrolQuery}
use kite.Kontrol.QueryKey.{get_audience}
use kite.Request.Audience.{
  AudienceError, verify_audience, Names, IsNamed, verify_audience-get_audience,
}
use kite.Request.Verify.{
  TokenClaims, Parsed, signature_invalid, not_parsed, parsed, for_audience, by_claims, by_parsed,
  authenticate_from_token,
}

-- The token is one that Kontrol's key has signed, for a user and an audience that the kite belongs
-- to.
pub record IsGranted (parse : Text → Parsed) (kite : Kite) (key subject : Text) : Type 0 where
  pub audience : Text
  pub signed : parse key ≡ parsed true (record { subject = subject; audience = audience })
  pub audience_set : is_empty audience ≡ false
  pub subject_set : is_empty subject ≡ false
  pub audience_fits : verify_audience kite audience ≡ ok tt

abbrev audience_in : Parsed → Text
audience_in signature_invalid = []
audience_in (not_parsed f) = []
audience_in (parsed valid claims) = claims.audience

is_empty-get_audience : (q : KontrolQuery) → is_empty (get_audience q) ≡ false
unfolding get_audience
is_empty-get_audience q = ground arith

module _ (parse : Text → Parsed) (kite : Kite) (key : Text) where
  for_audience_ok :
      (subject name : Text) (r : Result AudienceError Unit)
      → for_audience subject r ≡ ok name
      → (r ≡ ok tt) × (subject ≡ name)
  for_audience_ok subject name (ok _) h = (refl, cc)
  for_audience_ok subject name (err e) h = cc

  IsGranted-by_claims :
      (claims : TokenClaims) (name : Text)
      → parse key ≡ parsed true claims
      → by_claims kite claims ≡ ok name
      → IsGranted parse kite key name
  IsGranted-by_claims claims name e h = elim (Bool-cases (is_empty claims.audience)) [
    | inl a ↦ absurd (ground (arith, a, h))
    | inr a ↦ elim (Bool-cases (is_empty claims.subject)) [
      | inl b ↦ absurd (ground (arith, a, b, h))
      | inr b ↦
          let fits : for_audience claims.subject (verify_audience kite claims.audience) ≡ ok name =
            ground (arith, a, b, h) in
          let (good, same) = for_audience_ok claims.subject name _ fits in
          subst (IsGranted parse kite key) same (record {
            audience = claims.audience;
            signed = e;
            audience_set = a;
            subject_set = b;
            audience_fits = good;
          })
    ]
  ]

  IsGranted-by_parsed :
      (p : Parsed) (name : Text)
      → parse key ≡ p
      → by_parsed kite p ≡ ok name
      → IsGranted parse kite key name
  IsGranted-by_parsed signature_invalid name e h = cc
  IsGranted-by_parsed (not_parsed f) name e h = cc
  IsGranted-by_parsed (parsed false claims) name e h = cc
  IsGranted-by_parsed (parsed true claims) name e h = IsGranted-by_claims claims name e h

  IsGranted-authenticate_from_token :
      (name : Text)
      → authenticate_from_token parse kite key ≡ ok name
      → IsGranted parse kite key name
  unfolding authenticate_from_token
  IsGranted-authenticate_from_token name h = IsGranted-by_parsed (parse key) name refl h

  authenticate_of_IsGranted :
      (name : Text)
      → IsGranted parse kite key name
      → authenticate_from_token parse kite key ≡ ok name
  unfolding authenticate_from_token
  authenticate_of_IsGranted name g =
      ap (by_parsed kite) g.signed ∙ rw (g.audience_set, g.subject_set, g.audience_fits) refl

  -- A token authenticates its bearer as a user exactly if it is signed by Kontrol's key and valid,
  -- its subject is that user and not empty, and its audience is not empty and one that the kite
  -- belongs to.
  pub authenticate_from_token-IsGranted :
      (name : Text)
      → (authenticate_from_token parse kite key ≡ ok name) ↔ IsGranted parse kite key name
  authenticate_from_token-IsGranted name =
      (IsGranted-authenticate_from_token name, authenticate_of_IsGranted name)

  -- A token that Kontrol has signed for a user and for the audience of a query with a username,
  -- none of whose username, environment and name holds a slash, authenticates that user with a kite
  -- exactly if the query names the kite's username, environment and name, of which the last two may
  -- be left open.
  pub authenticate_from_token-get_audience :
      (q : KontrolQuery) (name : Text)
      → is_empty q.username ≡ false
      → IsNamed q
      → is_empty name ≡ false
      → parse key ≡ parsed true (record { subject = name; audience = get_audience q })
      → (authenticate_from_token parse kite key ≡ ok name) ↔ Names q kite
  authenticate_from_token-get_audience q name set named known e = (
    λ h.
        let g = IsGranted-authenticate_from_token name h in
        (verify_audience-get_audience kite q set named).0
          (subst (λ a. verify_audience kite a ≡ ok tt) (audience_of g) g.audience_fits),
    λ n. authenticate_of_IsGranted name (record {
      audience = get_audience q;
      signed = e;
      audience_set = is_empty-get_audience q;
      subject_set = known;
      audience_fits = (verify_audience-get_audience kite q set named).1 n;
    }),
  )
    where
      audience_of : (g : IsGranted parse kite key name) → g.audience ≡ get_audience q
      audience_of g =
          let both : parsed true (record { subject = name; audience = g.audience })
              ≡ parsed true (record { subject = name; audience = get_audience q }) =
            sym g.signed ∙ e in
          ap audience_in both

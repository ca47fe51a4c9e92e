-- ===== src/Request/Audience.antt =====
-- `verifyAudience` of request.go, against the audiences that Kontrol's `getAudience` writes.
use kite.Common.{
  if◌then◌else◌, ◌==◌, nat_eq, Text, codes, text_beq, text_beq_iff, text_eq, is_empty, split_n,
  cut_at-none, split_n-append, Result, ok, err, ℕ, zero, suc, ◌≡◌, refl, ap, ◌↔◌, ◌⊎◌, true, false,
  ◌&&◌, not, [], ◌∷◌, ◌++◌, append-nil, arith,
}
use kite.Protocol.{Kite, KiteError, KontrolQuery, slash, kite_of_parts, kite_from_string}
use kite.Protocol.Path.{NoSlash}
use kite.Kontrol.QueryKey.{get_audience}

pub data AudienceError : Type 0 where
  empty_audience : AudienceError
  invalid_audience : KiteError → AudienceError
  username_not_allowed environment_not_allowed kite_not_allowed : AudienceError

-- The three comparisons with the parsed audience.
unfoldable pub check_audience : Kite → Kite → Result AudienceError Unit
check_audience k aud =
    if not (k.username == aud.username)
    then err username_not_allowed
    else if not (k.environment == aud.environment) && not (is_empty aud.environment)
    then err environment_not_allowed
    else if not (k.name == aud.name) && not (is_empty aud.name)
    then err kite_not_allowed
    else ok tt

abbrev parsed_audience : Kite → Result KiteError Kite → Result AudienceError Unit
parsed_audience k (ok aud) = check_audience k aud
parsed_audience k (err e) = err (invalid_audience e)

-- `verifyAudience`
unfoldable pub verify_audience : Kite → Text → Result AudienceError Unit
unfolding check_audience
verify_audience k audience =
    if audience == codes "/"
    then ok tt
    else if is_empty audience
    then err empty_audience
    else parsed_audience k (kite_from_string audience)

-- An empty field of a query allows every value, another its own value only.
abbrev pub Allows : Text → Text → Type 0
Allows pat v = (is_empty pat ≡ true) ⊎ (v ≡ pat)

pub record Names (q : KontrolQuery) (k : Kite) : Type 0 where
  pub username : k.username ≡ q.username
  pub environment : Allows q.environment k.environment
  pub name : Allows q.name k.name

split_n_here : (n : ℕ) (s : Text) → NoSlash s → split_n slash n s ≡ s ∷ []
unfolding split_n
split_n_here zero s h = refl
split_n_here (suc n) s h = rw (cut_at-none slash s h, split_n) refl

aud_of : Text → Text → Text → Kite
aud_of u e n = kite_of_parts (u ∷ e ∷ n ∷ [])

abbrev pub IsNamed : KontrolQuery → Type 0
IsNamed q = NoSlash q.username × NoSlash q.environment × NoSlash q.name

module _ (u e n : Text) (hu : NoSlash u) where
  unfold_one : kite_from_string (slash ∷ u) ≡ ok (aud_of u [] [])
  unfolding kite_from_string aud_of
  unfold_one = rw (split_n_here 6 u hu) refl

  unfold_two : NoSlash e → kite_from_string (slash ∷ (u ++ slash ∷ e)) ≡ ok (aud_of u e [])
  unfolding kite_from_string aud_of
  unfold_two he = rw (split_n-append slash 5 u _ hu, split_n_here 5 e he) refl

  unfold_three :
      NoSlash e
      → NoSlash n
      → kite_from_string (slash ∷ (u ++ slash ∷ (e ++ slash ∷ n))) ≡ ok (aud_of u e n)
  unfolding kite_from_string aud_of
  unfold_three he hn =
      rw (split_n-append slash 5 u _ hu, split_n-append slash 4 e _ he, split_n_here 4 n hn) refl

eq_of_is_empty : (s : Text) → is_empty s ≡ true → s ≡ []
eq_of_is_empty [] h = refl
eq_of_is_empty (c ∷ s) h = cc

-- The audience of a query is read back as the query's username, environment and name.
kite_from_string-get_audience :
    (q : KontrolQuery)
    → IsNamed q
    → kite_from_string (get_audience q) ≡ ok (aud_of q.username q.environment q.name)
unfolding get_audience
kite_from_string-get_audience q h = ground (
  arith,
  unfold_one q.username q.environment q.name h.0,
  unfold_two q.username q.environment q.name h.0 h.1,
  unfold_three q.username q.environment q.name h.0 h.1 h.2,
  eq_of_is_empty q.name,
  eq_of_is_empty q.environment,
)

not_root : (u rest : Text) → is_empty u ≡ false → text_beq (slash ∷ (u ++ rest)) (codes "/") ≡ false
unfolding text_beq
not_root [] rest h = cc
not_root (c ∷ u) rest h = refl

get_audience-ne-root :
    (q : KontrolQuery) → is_empty q.username ≡ false → text_beq (get_audience q) (codes "/") ≡ false
unfolding get_audience
get_audience-ne-root q h = ground (
  arith,
  not_root q.username (slash ∷ (q.environment ++ slash ∷ q.name)) h,
  not_root q.username (slash ∷ q.environment) h,
  not_root q.username [] h,
  append-nil q.username,
)

get_audience_set : (q : KontrolQuery) → is_empty (get_audience q) ≡ false
unfolding get_audience
get_audience_set q = ground arith

check_audience_iff :
    (k : Kite) (q : KontrolQuery)
    → (check_audience k (aud_of q.username q.environment q.name) ≡ ok tt) ↔ Names q k
unfolding check_audience aud_of kite_of_parts
check_audience_iff k q = (
  λ h. record {
    username = ground (arith, text_beq_iff k.username q.username);
    environment = ground (arith, text_beq_iff k.environment q.environment);
    name = ground (arith, text_beq_iff k.name q.name);
  },
  λ h. ground (
    arith,
    text_beq_iff k.username q.username,
    text_beq_iff k.environment q.environment,
    text_beq_iff k.name q.name,
    h.username,
    h.environment,
    h.name,
  ),
)

-- A kite accepts the audience that Kontrol writes for a query with a username and with no slash in
-- its username, environment and name, exactly when its username is the query's and its environment
-- and its name are the query's where the query sets them.
pub verify_audience-get_audience :
    (k : Kite) (q : KontrolQuery)
    → is_empty q.username ≡ false
    → IsNamed q
    → (verify_audience k (get_audience q) ≡ ok tt) ↔ Names q k
unfolding verify_audience
verify_audience-get_audience k q h s =
    rw (get_audience-ne-root q h, get_audience_set q, kite_from_string-get_audience q s)
      (check_audience_iff k q)

-- For a query with no username, environment and name, such as one by id alone, Kontrol writes the
-- root audience, and every kite accepts it.
pub verify_audience_by_id :
    (k : Kite) (q : KontrolQuery)
    → is_empty q.username ≡ true
    → is_empty q.environment ≡ true
    → is_empty q.name ≡ true
    → (get_audience q ≡ codes "/") × (verify_audience k (get_audience q) ≡ ok tt)
verify_audience_by_id k q hu he hn = (root, rw root (unfold verify_audience text_beq in refl))
  where
    root : get_audience q ≡ codes "/"
    root =
        unfold get_audience in
        rw (hn, he) (ap (λ (s : Text). slash ∷ s) (eq_of_is_empty q.username hu))

-- ===== src/Kontrol/QueryKey/Shape.antt =====
-- Which queries have a key, and which key.
use kite.Common.{
  ◌>>=◌, err, Bool-cases, inl, inr, ◌∙◌, if◌then◌else◌, nat_eq, Text, text_eq, is_empty, Result, ok,
  err, ◌≡◌, refl, ap, Bool, true, false, ◌&&◌, Option, none, some, List, [], ◌∷◌, ◌++◌, map,
  append_assoc, append-nil, arith,
}
use kite.Protocol.{KontrolQuery, Field, field, slash}
use kite.Kontrol.QueryKey.{KeyError, get_query_key, key_order, trim_slash, query_key_loop}

abbrev pub all_empty : List Text → Bool
all_empty [] = true
all_empty (v ∷ vs) = is_empty v && all_empty vs

-- Behind an empty value all are empty.
abbrev pub gap_free : List Text → Bool
gap_free [] = true
gap_free (v ∷ vs) = if is_empty v then all_empty vs else gap_free vs

-- The values before the first empty one.
abbrev pub leading : List Text → List Text
leading [] = []
leading (v ∷ vs) = if is_empty v then [] else v ∷ leading vs

-- Each value behind a slash.
abbrev pub path_of : List Text → Text
path_of [] = []
path_of (v ∷ vs) = slash ∷ (v ++ path_of vs)

-- Each value before a slash.
abbrev segments : List Text → Text
segments [] = []
segments (v ∷ vs) = v ++ slash ∷ segments vs

abbrev pub query_values : KontrolQuery → List Text
query_values q = map (field q) key_order

-- A Go result with its error message forgotten.
abbrev pub value_of {ℓ} : {E A : Type ℓ} → Result E A → Option A
value_of (ok a) = some a
value_of (err e) = none

-- The key that a query should have: none if it has no username or a gap.
abbrev pub key_spec : KontrolQuery → Option Text
key_spec q =
    if is_empty q.username
    then none
    else if gap_free (query_values q)
    then some (path_of (leading (query_values q)))
    else none

trim_slash-append : (s : Text) → trim_slash (s ++ slash ∷ []) ≡ s
unfolding trim_slash
trim_slash-append [] = refl
trim_slash-append (c ∷ []) = refl
trim_slash-append (c ∷ d ∷ s) = ap (λ t. c ∷ t) (trim_slash-append (d ∷ s))

segments-path_of : (vs : List Text) → slash ∷ segments vs ≡ path_of vs ++ slash ∷ []
segments-path_of [] = refl
segments-path_of (v ∷ vs) = simp (segments-path_of vs, append_assoc)

module _ (q : KontrolQuery) where
  loop_empty :
      (keys : List Field) (path : Text) (gap : Option Field)
      → all_empty (map (field q) keys) ≡ true
      → query_key_loop q keys path gap ≡ ok path
  unfolding query_key_loop
  loop_empty [] path gap h = refl
  loop_empty (key ∷ keys) path gap h = ground (arith, loop_empty keys path (some key))

  loop_gap :
      (keys : List Field) (path : Text) (f : Field)
      → all_empty (map (field q) keys) ≡ false
      → value_of (query_key_loop q keys path (some f)) ≡ none
  unfolding query_key_loop
  loop_gap [] path f h = cc
  loop_gap (key ∷ keys) path f h = ground (arith, loop_gap keys path key)

  loop_lem :
      (keys : List Field) (path : Text)
      → value_of (query_key_loop q keys path none) ≡ (
          if gap_free (map (field q) keys)
          then some (path ++ segments (leading (map (field q) keys)))
          else none)
  unfolding query_key_loop
  loop_lem [] path = rw append-nil
  loop_lem (key ∷ keys) path = elim (Bool-cases (is_empty (field q key))) [
    | inl e ↦
        rw (e, query_key_loop)
          (ground (arith, loop_empty keys path (some key), loop_gap keys path key, append-nil path))
    | inr e ↦
        rw (e, query_key_loop)
          (loop_lem keys (path ++ field q key ++ slash ∷ []) ∙ simp append_assoc)
  ]

trim-segments : (vs : List Text) → trim_slash (slash ∷ segments vs) ≡ path_of vs
trim-segments vs = rw segments-path_of (trim_slash-append (path_of vs))

-- The last step of `GetQueryKey`, on the result of its loop.
value_of-trim :
    (m : Result KeyError Text) (b : Bool) (vs : List Text)
    → value_of m ≡ (if b then some (slash ∷ segments vs) else none)
    → value_of (m >>= λ path. ok (trim_slash path)) ≡ (if b then some (path_of vs) else none)
value_of-trim (ok s) true vs h = cc (trim-segments vs)
value_of-trim (ok s) false vs h = cc
value_of-trim (err e) true vs h = cc
value_of-trim (err e) false vs h = refl

-- A query has a key exactly when it has a username and no empty field stands before a set one; the
-- key is then the path of the set fields in their order, and else the result is an error.
pub get_query_key-eq-spec : (q : KontrolQuery) → value_of (get_query_key q) ≡ key_spec q
unfolding get_query_key
get_query_key-eq-spec q = elim (Bool-cases (is_empty q.username)) [
  | inl e ↦ rw e refl
  | inr e ↦ rw e (
      value_of-trim _ (gap_free (query_values q)) (leading (query_values q))
        (loop_lem q key_order (slash ∷ [])))
]

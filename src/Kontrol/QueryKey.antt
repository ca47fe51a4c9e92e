-- ===== src/Kontrol/QueryKey.antt =====
-- kontrol/etcd.go: the keys under which kites are stored and looked up. The proofs are in the
-- modules below.
pub mod Validity
pub mod Shape
pub mod Match
use kite.Common.{
  ltb, leb, nat_beq, if◌then◌else◌, nat_beq_iff, Bool-cases, Option-cases, Eq, ◌==◌, ==_iff,
  ==_refl, nat_eq, Text, codes, text_beq, text_beq_iff, text_eq, is_empty, contains_byte,
  has_prefix, has_prefix-append, contains_text, count_byte, cut_at, split_n, split, part,
  cut_at_here, cut_at-append, cut_at-none, split_n-append, split-append, split_whole,
  count_byte-append, count_byte_zero, count_byte_none, count_byte_here, Result, ok, err, ◌>>=◌,
  ◌>>◌, ℕ, zero, suc, ◌+◌, ◌-◌, ◌*◌, ◌/◌, ◌%◌, ◌^◌, ◌≤◌, ◌<◌, ◌≡◌, refl, sym, ap, ◌∙◌, ◌≢◌, ◌↔◌,
  ◌⊎◌, inl, inr, Bool, true, false, ◌&&◌, ◌||◌, not, Option, none, some, List, [], ◌∷◌, ◌++◌, map,
  append_assoc, append-nil, arith, Result-cases, trim_space,
}
use kite.Protocol.{
  Kite, KontrolQuery, Field, username, environment, name, version, region, hostname, id, slash,
  field, query,
}

pub data KeyError : Type 0 where
  empty_username : KeyError
  option_not_set : Field → KeyError
  empty_kite_field : Field → KeyError
  slash_in_kite_field : Field → KeyError

-- `keyOrder`
abbrev pub key_order : List Field
key_order = username ∷ environment ∷ name ∷ version ∷ region ∷ hostname ∷ id ∷ []

-- strings.TrimSuffix(s, "/")
unfoldable pub trim_slash : Text → Text
trim_slash [] = []
trim_slash (c ∷ []) = if nat_beq c slash then [] else c ∷ []
trim_slash (c ∷ d ∷ s) = c ∷ trim_slash (d ∷ s)

-- The loop of `GetQueryKey`. `gap` is the last empty field that was met, if any.
unfoldable pub query_key_loop :
    KontrolQuery → List Field → Text → Option Field → Result KeyError Text
query_key_loop q [] path gap = ok path
query_key_loop q (key ∷ keys) path gap = elim (is_empty (field q key)) [
  | true ↦ query_key_loop q keys path (some key)
  | false ↦ elim gap [
    | some f ↦ err (option_not_set f)
    | none ↦ query_key_loop q keys (path ++ field q key ++ slash ∷ []) none
  ]
]

-- `GetQueryKey`
unfoldable pub get_query_key : KontrolQuery → Result KeyError Text
unfolding query_key_loop trim_slash
get_query_key q =
    if is_empty q.username
    then err empty_username
    else do path ← query_key_loop q key_order (slash ∷ []) none; ok (trim_slash path)

-- `getAudience`
unfoldable pub get_audience : KontrolQuery → Text
get_audience q =
    if not (is_empty q.name)
    then slash ∷ (q.username ++ slash ∷ (q.environment ++ slash ∷ q.name))
    else if not (is_empty q.environment)
    then slash ∷ (q.username ++ slash ∷ q.environment)
    else slash ∷ q.username

-- The loop of `onlyIDQuery`.
unfoldable pub others_empty : KontrolQuery → List Field → Bool
others_empty q [] = true
others_empty q (id ∷ keys) = others_empty q keys
others_empty q (key ∷ keys) = is_empty (field q key) && others_empty q keys

-- `onlyIDQuery`
unfoldable pub only_id_query : KontrolQuery → Bool
unfolding others_empty field
only_id_query q = if others_empty q key_order then not (is_empty (field q id)) else false

-- The loop of `validateKiteKey`. Go ranges over the map in an order of its own choice, which is
-- the list `order`.
unfoldable pub validate_fields : List Field → KontrolQuery → Result KeyError Unit
validate_fields [] q = ok tt
validate_fields (f ∷ order) q =
    if is_empty (field q f)
    then err (empty_kite_field f)
    else if contains_byte slash (field q f)
    then err (slash_in_kite_field f)
    else validate_fields order q

-- `validateKiteKey`
unfoldable pub validate_kite_key : List Field → Kite → Result KeyError Unit
unfolding validate_fields
validate_kite_key order k = validate_fields order (query k)

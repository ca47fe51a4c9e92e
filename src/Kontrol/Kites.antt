-- ===== src/Kontrol/Kites.antt =====
-- kontrol/kites.go: the kites that answer a query, and the constraint of a query's version that both
-- storages look for (`Get` of kontrol/etcd.go and kontrol/postgres.go).
pub mod Filtered
pub mod Shuffled
use kite.Common.{
  length, ltb, leb, nat_beq, if◌then◌else◌, nat_beq_iff, Bool-cases, Option-cases, Result-cases, Eq,
  ◌==◌, ==_iff, ==_refl, nat_eq, Text, codes, text_beq, text_beq_iff, text_eq, is_empty,
  contains_byte, has_prefix, has_prefix-append, trim_space, contains_text, count_byte, cut_at,
  split_n, split, part, cut_at_here, cut_at-append, cut_at-none, split_n-append, split-append,
  split_whole, count_byte-append, count_byte_zero, count_byte_none, count_byte_here, Result, ok,
  err, ◌>>=◌, ◌>>◌, ℕ, zero, suc, ◌+◌, ◌-◌, ◌*◌, ◌/◌, ◌%◌, ◌^◌, ◌≤◌, ◌<◌, ◌≡◌, refl, sym, ap, ◌∙◌,
  ◌≢◌, ◌↔◌, ◌⊎◌, inl, inr, Bool, true, false, ◌&&◌, ◌||◌, not, Option, none, some, List, [], ◌∷◌,
  ◌++◌, map, append_assoc, append-nil, arith,
}
use kite.Protocol.{Kite, KontrolQuery, KiteWithToken, slash}

-- strings.TrimRight(s, "/")
unfoldable pub trim_slashes : Text → Text
trim_slashes [] = []
trim_slashes (c ∷ s) =
    let rest = trim_slashes s in if nat_beq c slash && is_empty rest then [] else c ∷ rest

-- What is left of a key after the version.
unfoldable pub after_version : Text → Text → Text → Text
unfolding trim_slashes
after_version region hostname id = slash ∷ trim_slashes (region ++ slash ∷ (hostname ++ slash ∷ id))

-- `Attach`
unfoldable pub attach : Text → List KiteWithToken → List KiteWithToken
attach token [] = []
attach token (k ∷ ks) = record k { token = token } ∷ attach token ks

-- shuffled[v] = k, in a slice of pointers.
unfoldable pub put_at : {A : Type 0} → ℕ → A → List (Option A) → List (Option A)
put_at v a [] = []
put_at zero a (s ∷ slots) = some a ∷ slots
put_at (suc v) a (s ∷ slots) = s ∷ put_at v a slots

abbrev pub nils : {A : Type 0} → List A → List (Option A)
nils [] = []
nils (a ∷ rest) = none ∷ nils rest

unfoldable pub put_all : {A : Type 0} → List ℕ → List A → List (Option A) → List (Option A)
unfolding put_at
put_all [] ks slots = slots
put_all (v ∷ vs) [] slots = slots
put_all (v ∷ vs) (k ∷ ks) slots = put_all vs ks (put_at v k slots)

-- `Shuffle`; `perm` is what rand.Perm gives for the length.
unfoldable pub shuffle : (ℕ → List ℕ) → List KiteWithToken → List (Option KiteWithToken)
unfolding put_all
shuffle perm ks = put_all (perm (length ks)) ks (nils ks)

-- github.com/hashicorp/go-version: versions, constraints, NewVersion (nil on an error),
-- NewConstraint and Check.
pub record Versions : Type 1 where
  pub Version : Type 0
  pub Constraint : Type 0
  pub new_version : Text → Option Version
  pub new_constraint : Text → Result Text Constraint
  pub check : Constraint → Option Version → Bool

module _ (versions : Versions) where
  open versions use {Version, Constraint, new_version, new_constraint, check}

  -- `isValid`
  unfoldable pub is_valid : Kite → Constraint → Text → Bool
  unfolding after_version
  is_valid k c key_rest =
      if not (check c (new_version k.version))
      then false
      else has_prefix (after_version k.region k.hostname k.id) key_rest

  -- `Filter`
  unfoldable pub filter : Constraint → Text → List KiteWithToken → List KiteWithToken
  unfolding is_valid
  filter c key_rest [] = []
  filter c key_rest (k ∷ ks) =
      let rest = filter c key_rest ks in if is_valid k.kite c key_rest then k ∷ rest else rest

  -- How a query is answered: from its own fields, or from the kites of its name with a constraint
  -- and the rest of the key; or its version is malformed.
  pub data Selection : Type 0 where
    by_fields : Selection
    by_constraint : Constraint → Selection
    malformed : Text → Selection

  abbrev is_some : Option Version → Bool
  is_some none = false
  is_some (some v) = true

  abbrev of_constraint : Result Text Constraint → Selection
  of_constraint (ok c) = by_constraint c
  of_constraint (err e) = malformed e

  unfoldable pub selection : Text → Selection
  selection v =
      if is_some (new_version v) || is_empty v then by_fields else of_constraint (new_constraint v)

-- The query of a name, and the rest of a query's key.
abbrev pub name_query : KontrolQuery → KontrolQuery
name_query q = record {
  username = q.username;
  environment = q.environment;
  name = q.name;
  version = [];
  region = [];
  hostname = [];
  id = [];
}

abbrev pub key_rest_of : KontrolQuery → Text
key_rest_of q = after_version q.region q.hostname q.id

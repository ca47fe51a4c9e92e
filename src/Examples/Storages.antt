-- ===== src/Examples/Storages.antt =====
-- The storages of kites at concrete values.
use kite.Common.{
  nat_beq, if◌then◌else◌, nat_eq, Text, codes, text_eq, Result, ok, err, ℕ, zero, suc, ◌≡◌, refl,
  Bool, false, Option, none, some, List, [], ◌∷◌,
}
use kite.Protocol.{Kite, KontrolQuery, KiteWithToken, RegisterValue, Field, query, slash, string}
use kite.Kontrol.Kites.{shuffle, Versions, is_valid}
use kite.Kontrol.Postgres.{Sql, get}

abbrev math : Kite
math = record {
  name = codes "math";
  username = codes "devrim";
  id = codes "7f2c";
  environment = codes "prod";
  region = codes "eu";
  version = codes "1.0.0";
  hostname = codes "host";
}

-- A version is its first character, and a constraint is an equation with one.
abbrev versions : Versions
versions = record {
  Version = ℕ;
  Constraint = ℕ;
  new_version = first_digit;
  new_constraint = constraint;
  check = equals;
}
  where
    first_digit : Text → Option ℕ
    first_digit [] = none
    first_digit (c ∷ s) = if nat_beq c b'=' then none else some c

    constraint : Text → Result Text ℕ
    constraint [] = err (codes "malformed")
    constraint (c ∷ []) = err (codes "malformed")
    constraint (c ∷ d ∷ s) = ok d

    equals : ℕ → Option ℕ → Bool
    equals c none = false
    equals c (some v) = nat_beq c v

abbrev answer : Kite → KiteWithToken
answer k = record { kite = k; url = codes "http://a"; key_id = codes "k"; token = [] }

-- A table that answers every select with the same kites.
abbrev table_of : List KiteWithToken → Sql
table_of ks = record {
  Tables = Unit;
  parse_url = λ u. ok tt;
  select_kites = λ conds t. ok ks;
  begins = λ t. ok tt;
  upserting = λ u i k t. ok (t, 1);
  insert_kite = λ vs t. ok t;
  update_url = λ u i t. ok t;
  delete_kite = λ i t. ok t;
  commits = λ s t. ok tt;
  rolls_back = λ s. ok tt;
  insert_key = λ i p q t. ok t;
  mark_deleted = λ i t. ok t;
  key_by_id = λ i t. ok none;
  key_by_public = λ p t. ok none;
}

abbrev perm : ℕ → List ℕ
perm zero = []
perm (suc n) = n ∷ perm n

-- The kites math of version 2.
abbrev second_math : KontrolQuery
second_math = record {
  username = codes "devrim";
  environment = codes "prod";
  name = codes "math";
  version = codes "=2";
  region = [];
  hostname = [];
  id = [];
}

abbrev name_conditions : List (Field × Text)
name_conditions =
    (Field.username, codes "devrim")
    ∷ (Field.environment, codes "prod")
    ∷ (Field.name, codes "math")
    ∷ []

abbrev own_conditions : List (Field × Text)
own_conditions =
    (Field.username, codes "devrim")
    ∷ (Field.environment, codes "prod")
    ∷ (Field.name, codes "math")
    ∷ (Field.version, codes "=2")
    ∷ []

abbrev newer_math : Kite
newer_math = record math { version = codes "2.0.0"; id = codes "8a1d" }

abbrev two_kites : Sql
two_kites = table_of (answer math ∷ answer newer_math ∷ [])

get-newer : get two_kites versions perm second_math tt ≡ ok (some (answer newer_math) ∷ [])
unfolding get shuffle is_valid kite.Protocol.field
get-newer = refl

-- A single kite of another version is answered too.
get-single_row :
    get (table_of (answer math ∷ [])) versions perm second_math tt ≡ ok (some (answer math) ∷ [])
unfolding get shuffle is_valid kite.Protocol.field
get-single_row = refl

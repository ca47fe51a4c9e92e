-- ===== src/Examples/Identity.antt =====
-- Kites, query keys and audiences at concrete values.
use kite.Common.{
  is_empty, false, ◌++◌, nat_eq, codes, text_eq, contains_text, count_byte, ok, ◌≡◌, refl, ◌↔◌, inl,
  inr, [],
}
use mathlib.Core.List.{Memᴰ}
use kite.Protocol.{
  Kite, KontrolQuery, username, environment, name, version, region, hostname, id, field, query,
  string, validate, kite_from_string,
}
use kite.Protocol.Path.{IsSplittable, kite_from_string-string}
use kite.Protocol.Validity.{IsAccepted, validate_iff}
use kite.Kontrol.QueryKey.{key_order, get_query_key, validate_kite_key}
use kite.Kontrol.Node.{kite_from_key}
use kite.Kontrol.Node.Stored.{kites_prefix, kite_from_key-string}
use kite.Kontrol.QueryKey.Validity.{validate_kite_key_iff, CoversFields}
use kite.Kontrol.QueryKey.Shape.{key_spec, value_of, get_query_key-eq-spec}
use kite.Kontrol.QueryKey.Match.{Matches, IsUnder, get_query_key-IsUnder}

abbrev math : Kite
math = record {
  name = codes "math";
  username = codes "devrim";
  id = codes "7f2c";
  environment = codes "prod";
  region = codes "eu";
  version = codes "1.0.0";
  hostname = codes "host";
}

abbrev prod_math : KontrolQuery
prod_math = record {
  username = codes "devrim";
  environment = codes "prod";
  name = codes "math";
  version = [];
  region = [];
  hostname = [];
  id = [];
}

abbrev by_id : KontrolQuery
by_id = record {
  username = [];
  environment = [];
  name = [];
  version = [];
  region = [];
  hostname = [];
  id = codes "7f2c";
}

string-math : string math ≡ codes "/devrim/prod/math/1.0.0/eu/host/7f2c"
unfolding string
string-math = refl

get_query_key-prod_math : get_query_key prod_math ≡ ok (codes "/devrim/prod/math")
unfolding get_query_key field
get_query_key-prod_math = refl

math-IsSplittable : IsSplittable math
math-IsSplittable = record {
  username = refl;
  environment = refl;
  name = refl;
  version = refl;
  region = refl;
  hostname = refl;
}

validate-math : validate math ≡ ok tt
unfolding validate string contains_text count_byte
validate-math = refl

kite_from_string-string_example : kite_from_string (string math) ≡ ok math
kite_from_string-string_example = kite_from_string-string math math-IsSplittable

validate_iff_example : (validate math ≡ ok tt) ↔ IsAccepted math
validate_iff_example = validate_iff math

key_order-CoversFields : CoversFields key_order
key_order-CoversFields username = Memᴰ.head refl
key_order-CoversFields environment = Memᴰ.tail (Memᴰ.head refl)
key_order-CoversFields name = Memᴰ.tail (Memᴰ.tail (Memᴰ.head refl))
key_order-CoversFields version = Memᴰ.tail (Memᴰ.tail (Memᴰ.tail (Memᴰ.head refl)))
key_order-CoversFields region = Memᴰ.tail (Memᴰ.tail (Memᴰ.tail (Memᴰ.tail (Memᴰ.head refl))))
key_order-CoversFields hostname =
    Memᴰ.tail (Memᴰ.tail (Memᴰ.tail (Memᴰ.tail (Memᴰ.tail (Memᴰ.head refl)))))
key_order-CoversFields id =
    Memᴰ.tail (Memᴰ.tail (Memᴰ.tail (Memᴰ.tail (Memᴰ.tail (Memᴰ.tail (Memᴰ.head refl))))))

validate_kite_key-math : validate_kite_key key_order math ≡ ok tt
unfolding validate_kite_key query field
validate_kite_key-math = refl

get_query_key-eq-spec_example : value_of (get_query_key prod_math) ≡ key_spec prod_math
get_query_key-eq-spec_example = get_query_key-eq-spec prod_math

prod_math-Matches : Matches prod_math math
unfolding field query
prod_math-Matches username = inr refl
prod_math-Matches environment = inr refl
prod_math-Matches name = inr refl
prod_math-Matches version = inl refl
prod_math-Matches region = inl refl
prod_math-Matches hostname = inl refl
prod_math-Matches id = inl refl

get_query_key-IsUnder_example : IsUnder (codes "/devrim/prod/math") (string math)
get_query_key-IsUnder_example =
    get_query_key-IsUnder prod_math math (codes "/devrim/prod/math") prod_math-Matches
      get_query_key-prod_math

validate_kite_key_iff_example :
    (validate_kite_key key_order math ≡ ok tt)
    ↔ ((validate math ≡ ok tt) × (is_empty math.id ≡ false))
validate_kite_key_iff_example = validate_kite_key_iff key_order key_order-CoversFields math

kite_from_key-string_example : kite_from_key (kites_prefix ++ string math) ≡ ok math
kite_from_key-string_example =
    kite_from_key-string key_order math key_order-CoversFields validate_kite_key-math

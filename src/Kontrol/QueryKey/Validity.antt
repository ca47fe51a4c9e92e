-- ===== src/Kontrol/QueryKey/Validity.antt =====
-- What `validateKiteKey` accepts, in whatever order Go ranges over the fields.
use mathlib.Core.List.{Memᴰ}
use kite.Common.{
  nat_eq, Text, text_eq, is_empty, contains_byte, ok, ◌≡◌, refl, ◌↔◌, false, List, [], ◌∷◌, arith,
}
use kite.Protocol.{
  Kite, KontrolQuery, Field, username, environment, name, version, region, hostname, id, slash,
  field, query, validate,
}
use kite.Protocol.Validity.{IsAccepted, validate_iff}
use kite.Kontrol.QueryKey.{validate_fields, validate_kite_key}

-- The order is one of the map's keys: it leaves none out.
abbrev pub CoversFields : List Field → Type 0
CoversFields order = (f : Field) → Memᴰ f order

abbrev IsGood : Text → Type 0
IsGood v = (is_empty v ≡ false) × (contains_byte slash v ≡ false)

validate_fields_at :
    (f : Field) (order : List Field) (q : KontrolQuery)
    → Memᴰ f order
    → validate_fields order q ≡ ok tt
    → IsGood (field q f)
unfolding validate_fields
validate_fields_at f [] q m h = elim m [ ]
validate_fields_at f (g ∷ order) q (Memᴰ.head e) h = ground arith
validate_fields_at f (g ∷ order) q (Memᴰ.tail m) h = validate_fields_at f order q m (ground arith)

validate_fields_all :
    (order : List Field) (q : KontrolQuery)
    → ((f : Field) → IsGood (field q f))
    → validate_fields order q ≡ ok tt
unfolding validate_fields
validate_fields_all [] q h = refl
validate_fields_all (g ∷ order) q h = ground (arith, h g, validate_fields_all order q h)

module _ (order : List Field) (covers : CoversFields order) (k : Kite) where
  pub IsGood-field : validate_kite_key order k ≡ ok tt → (f : Field) → IsGood (field (query k) f)
  unfolding validate_kite_key
  IsGood-field h f = validate_fields_at f order (query k) (covers f) h

  IsGood-validate : IsAccepted k → is_empty k.id ≡ false → (f : Field) → IsGood (field (query k) f)
  unfolding field query
  IsGood-validate a i username = (a.username_set, a.splittable.username)
  IsGood-validate a i environment = (a.environment_set, a.splittable.environment)
  IsGood-validate a i name = (a.name_set, a.splittable.name)
  IsGood-validate a i version = (a.version_set, a.splittable.version)
  IsGood-validate a i region = (a.region_set, a.splittable.region)
  IsGood-validate a i hostname = (a.hostname_set, a.splittable.hostname)
  IsGood-validate a i id = (i, a.id)

  IsAccepted-of_good :
      ((f : Field) → IsGood (field (query k) f)) → IsAccepted k × (is_empty k.id ≡ false)
  unfolding field query
  IsAccepted-of_good g = (
    record {
      splittable = record {
        username = (g username).1;
        environment = (g environment).1;
        name = (g name).1;
        version = (g version).1;
        region = (g region).1;
        hostname = (g hostname).1;
      };
      id = (g id).1;
      username_set = (g username).0;
      environment_set = (g environment).0;
      name_set = (g name).0;
      version_set = (g version).0;
      region_set = (g region).0;
      hostname_set = (g hostname).0;
    },
    (g id).0,
  )

  -- Whatever the order in which the fields are looked at, `validateKiteKey` accepts a kite exactly
  -- when `Kite.Validate` does and its id is nonempty.
  pub validate_kite_key_iff :
      (validate_kite_key order k ≡ ok tt) ↔ ((validate k ≡ ok tt) × (is_empty k.id ≡ false))
  unfolding validate_kite_key
  validate_kite_key_iff = (
    λ h. let (a, i) = IsAccepted-of_good (IsGood-field h) in ((validate_iff k).1 a, i),
    λ (v, i). validate_fields_all order (query k) (IsGood-validate ((validate_iff k).0 v) i),
  )

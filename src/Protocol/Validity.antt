-- ===== src/Protocol/Validity.antt =====
-- What `Kite.Validate` accepts.
use kite.Common.{
  nat_eq, Text, codes, text_eq, is_empty, contains_text, List, [], Bool, count_byte,
  count_byte-append, count_byte_zero, count_byte_none, count_byte_here, ok, ◌+◌, ◌≡◌, refl, ◌↔◌,
  false, ◌||◌, ◌∷◌, ◌++◌, arith,
}
use kite.Protocol.{Kite, slash, string, validate, kite_from_string}
use kite.Protocol.Path.{NoSlash, IsSplittable, kite_from_string-string}

abbrev double : Text
double = codes "//"

-- No field holds a slash, and only the id may be empty.
pub record IsAccepted (k : Kite) : Type 0 where
  pub splittable : IsSplittable k
  pub id : NoSlash k.id
  pub username_set : is_empty k.username ≡ false
  pub environment_set : is_empty k.environment ≡ false
  pub name_set : is_empty k.name ≡ false
  pub version_set : is_empty k.version ≡ false
  pub region_set : is_empty k.region ≡ false
  pub hostname_set : is_empty k.hostname ≡ false

contains_double_skip :
    (f rest : Text)
    → NoSlash f
    → contains_text (f ++ slash ∷ rest) double ≡ contains_text (slash ∷ rest) double
unfolding contains_text
contains_double_skip [] rest h = refl
contains_double_skip (c ∷ f) rest h = ground (arith, contains_double_skip f rest)

contains_double_none : (f : Text) → NoSlash f → contains_text f double ≡ false
unfolding contains_text
contains_double_none [] h = refl
contains_double_none (c ∷ f) h = ground (arith, contains_double_none f)

-- Behind a slash a doubled slash begins at once if the field is empty, and else in what follows.
contains_double_field :
    (f rest : Text)
    → NoSlash f
    → contains_text (slash ∷ (f ++ slash ∷ rest)) double
      ≡ (is_empty f || contains_text (slash ∷ rest) double)
unfolding contains_text
contains_double_field [] rest h = refl
contains_double_field (c ∷ f) rest h = ground (arith, contains_double_skip (c ∷ f) rest)

pub contains_double_last : (f : Text) → NoSlash f → contains_text (slash ∷ f) double ≡ false
unfolding contains_text
contains_double_last [] h = refl
contains_double_last (c ∷ f) h = ground (arith, contains_double_none (c ∷ f))

abbrev any_empty : List Text → Bool
any_empty [] = false
any_empty (f ∷ fs) = is_empty f || any_empty fs

contains_double-string :
    (k : Kite)
    → IsSplittable k
    → NoSlash k.id
    → contains_text (string k) double
      ≡ any_empty (k.username ∷ k.environment ∷ k.name ∷ k.version ∷ k.region ∷ k.hostname ∷ [])
unfolding string
contains_double-string k h hid =
    rw
      (
        contains_double_field k.username _ h.username,
        contains_double_field k.environment _ h.environment,
        contains_double_field k.name _ h.name,
        contains_double_field k.version _ h.version,
        contains_double_field k.region _ h.region,
        contains_double_field k.hostname _ h.hostname,
        contains_double_last k.id hid,
      )
      refl

count_byte-string :
    (k : Kite)
    → count_byte slash (string k)
      ≡ 7
        + (count_byte slash k.username
            + count_byte slash k.environment
            + count_byte slash k.name
            + count_byte slash k.version
            + count_byte slash k.region
            + count_byte slash k.hostname
            + count_byte slash k.id)
unfolding string
count_byte-string k = simp (count_byte_here, count_byte-append) (omega arith)

-- Counted over the path, seven slashes leave none for the fields.
IsSplittable-of_count : (k : Kite) → count_byte slash (string k) ≡ 7 → IsSplittable k × NoSlash k.id
IsSplittable-of_count k h = (
  record {
    username = count_byte_zero slash k.username (omega (arith, count_byte-string k));
    environment = count_byte_zero slash k.environment (omega (arith, count_byte-string k));
    name = count_byte_zero slash k.name (omega (arith, count_byte-string k));
    version = count_byte_zero slash k.version (omega (arith, count_byte-string k));
    region = count_byte_zero slash k.region (omega (arith, count_byte-string k));
    hostname = count_byte_zero slash k.hostname (omega (arith, count_byte-string k));
  },
  count_byte_zero slash k.id (omega (arith, count_byte-string k)),
)

count_of_IsSplittable : (k : Kite) → IsSplittable k → NoSlash k.id → count_byte slash (string k) ≡ 7
count_of_IsSplittable k h hid = omega (
  arith,
  count_byte-string k,
  count_byte_none slash k.username h.username,
  count_byte_none slash k.environment h.environment,
  count_byte_none slash k.name h.name,
  count_byte_none slash k.version h.version,
  count_byte_none slash k.region h.region,
  count_byte_none slash k.hostname h.hostname,
  count_byte_none slash k.id hid,
)

validate_parts :
    (k : Kite)
    → validate k ≡ ok tt
    → (contains_text (string k) double ≡ false) × (count_byte slash (string k) ≡ 7)
unfolding validate
validate_parts k h = (ground arith, ground arith)

IsAccepted-validate : (k : Kite) → validate k ≡ ok tt → IsAccepted k
IsAccepted-validate k h =
    let (no_double, seven) = validate_parts k h in
    let (hs, hid) = IsSplittable-of_count k seven in
    let e = contains_double-string k hs hid in
    record {
      splittable = hs;
      id = hid;
      username_set = ground arith;
      environment_set = ground arith;
      name_set = ground arith;
      version_set = ground arith;
      region_set = ground arith;
      hostname_set = ground arith;
    }

validate_of_IsAccepted : (k : Kite) → IsAccepted k → validate k ≡ ok tt
unfolding validate
validate_of_IsAccepted k h =
    ground
      (arith, contains_double-string k h.splittable h.id, count_of_IsSplittable k h.splittable h.id)

-- `Validate` accepts a kite exactly when no field holds a slash and every field but the id is
-- nonempty.
pub validate_iff : (k : Kite) → (validate k ≡ ok tt) ↔ IsAccepted k
validate_iff k = (IsAccepted-validate k, validate_of_IsAccepted k)

-- A kite that `Validate` accepts is read back whole from its path form.
pub kite_from_string-validate : (k : Kite) → validate k ≡ ok tt → kite_from_string (string k) ≡ ok k
kite_from_string-validate k h = kite_from_string-string k (IsAccepted-validate k h).splittable

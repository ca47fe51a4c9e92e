-- ===== src/Protocol.antt =====
-- protocol/protocol.go: a kite's identity, its path form, and queries. The proofs are in the
-- modules below.
pub mod Path
pub mod Validity
use kite.Common.{
  ltb, leb, nat_beq, if◌then◌else◌, nat_beq_iff, Bool-cases, Option-cases, Eq, ◌==◌, ==_iff,
  ==_refl, nat_eq, Text, codes, text_beq, text_beq_iff, text_eq, is_empty, contains_byte,
  has_prefix, has_prefix-append, contains_text, count_byte, cut_at, split_n, split, part,
  cut_at_here, cut_at-append, cut_at-none, split_n-append, split-append, split_whole,
  count_byte-append, count_byte_zero, count_byte_none, count_byte_here, Result, ok, err, ◌>>=◌,
  ◌>>◌, ℕ, zero, suc, ◌+◌, ◌-◌, ◌*◌, ◌/◌, ◌%◌, ◌^◌, ◌≤◌, ◌<◌, ◌≡◌, refl, sym, ap, ◌∙◌, ◌≢◌, ◌↔◌,
  ◌⊎◌, inl, inr, Bool, true, false, ◌&&◌, ◌||◌, not, Option, none, some, List, [], ◌∷◌, ◌++◌, map,
  append_assoc, append-nil, arith,
}

pub record Kite : Type 0 where
  pub name : Text
  pub username : Text
  pub id : Text
  pub environment : Text
  pub region : Text
  pub version : Text
  pub hostname : Text

abbrev pub slash : ℕ
slash = b'/'

-- `Kite.String`
unfoldable pub string : Kite → Text
string k =
    slash
    ∷ (k.username
        ++ slash
          ∷ (k.environment
              ++ slash
                ∷ (k.name
                    ++ slash
                      ∷ (k.version ++ slash ∷ (k.region ++ slash ∷ (k.hostname ++ slash ∷ k.id))))))

pub record KontrolQuery : Type 0 where
  pub username : Text
  pub environment : Text
  pub name : Text
  pub version : Text
  pub region : Text
  pub hostname : Text
  pub id : Text

-- `Kite.Query`
unfoldable pub query : Kite → KontrolQuery
query k = record {
  username = k.username;
  environment = k.environment;
  name = k.name;
  version = k.version;
  region = k.region;
  hostname = k.hostname;
  id = k.id;
}

-- `Kite.Values`
unfoldable pub values : Kite → List Text
values k = k.username ∷ k.environment ∷ k.name ∷ k.version ∷ k.region ∷ k.hostname ∷ k.id ∷ []

pub data KiteError : Type 0 where
  empty_field slash_in_field invalid_kite_string : KiteError

-- `Kite.Validate`
unfoldable pub validate : Kite → Result KiteError Unit
validate k =
    let s = string k in
    if contains_text s (codes "//")
    then err empty_field
    else if nat_beq (count_byte slash s) 7
    then ok tt
    else err slash_in_field

-- A slice of seven texts, filled from the parts that `SplitN` found.
unfoldable pub kite_of_parts : List Text → Kite
kite_of_parts fields = record {
  username = part fields 0;
  environment = part fields 1;
  name = part fields 2;
  version = part fields 3;
  region = part fields 4;
  hostname = part fields 5;
  id = part fields 6;
}

-- `KiteFromString`
unfoldable pub kite_from_string : Text → Result KiteError Kite
unfolding kite_of_parts
kite_from_string [] = err invalid_kite_string
kite_from_string (c ∷ s) =
    if nat_beq c slash then ok (kite_of_parts (split_n slash 6 s)) else err invalid_kite_string

-- The keys of the map that `KontrolQuery.Fields` returns.
pub data Field : Type 0 where
  username environment name version region hostname id : Field

-- `KontrolQuery.Fields`, as the function that reads the map.
unfoldable pub field : KontrolQuery → Field → Text
field q username = q.username
field q environment = q.environment
field q name = q.name
field q version = q.version
field q region = q.region
field q hostname = q.hostname
field q id = q.id

-- `RegisterArgs`, `Auth`, `RegisterResult` and `KiteWithToken`: what kites and Kontrol exchange.
pub record Auth : Type 0 where
  pub type : Text
  pub key : Text

pub record RegisterResult : Type 0 where
  pub url : Text
  pub heartbeat_interval : ℕ
  pub error : Text
  pub public_key : Text
  pub kite_key : Text

pub record KiteWithToken : Type 0 where
  pub kite : Kite
  pub url : Text
  pub key_id : Text
  pub token : Text

-- kontrol/protocol/protocol.go: the value that a storage keeps for a kite.
pub record RegisterValue : Type 0 where
  pub url : Text
  pub key_id : Text

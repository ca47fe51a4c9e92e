-- ===== src/Examples/Trees.antt =====
-- The storage in etcd at concrete values: a tree is the map of its leaves.
use kite.Common.{
  nat_beq, if◌then◌else◌, Bool-cases, ◌==◌, ==_iff, ==_refl, nat_eq, Text, codes, text_beq,
  text_beq_iff, text_eq, is_empty, contains_text, Result, ok, err, ℕ, zero, suc, ◌≡◌, refl, sym, ap,
  ◌∙◌, ◌≢◌, ◌⊎◌, inl, inr, Bool, true, false, ◌&&◌, Option, none, some, List, [], ◌∷◌, ◌++◌, arith,
}
use mathlib.Core.List.{Memᴰ}
use kite.Common.Dict.{Dict, lookup, insert, remove, lookup-insert}
use kite.Protocol.{Kite, KontrolQuery, RegisterValue, Field, query, slash, field}
use kite.Kontrol.QueryKey.{key_order, validate_kite_key, only_id_query}
use kite.Kontrol.QueryKey.Validity.{CoversFields}
use kite.Kontrol.Node.{EtcdNode, leaf}
use kite.Kontrol.Node.Stored.{kites_prefix}
use kite.Kontrol.Kites.{Versions, selection, by_fields}
use kite.Kontrol.Etcd.{EtcdClient, prev_ignore, client_error, add, get_kites}
use kite.Kontrol.Etcd.Added.{Laws, is_doubled}
use kite.Kontrol.Etcd.Answered.{get_kites-only_id}

begins_with_slash : Text → Bool
begins_with_slash [] = false
begins_with_slash (c ∷ s) = nat_beq c slash

-- A key with its doubled slashes made one.
unfoldable clean : Text → Text
unfolding begins_with_slash
clean [] = []
clean (c ∷ s) =
    let rest = clean s in if nat_beq c slash && begins_with_slash s then rest else c ∷ rest

clean-is_doubled : (key : Text) → is_doubled key ≡ false → clean key ≡ key
unfolding clean contains_text
clean-is_doubled [] h = refl
clean-is_doubled (c ∷ []) h = ground arith
clean-is_doubled (c ∷ d ∷ s) h =
    let tail : is_doubled (d ∷ s) ≡ false = ground arith in
    let below = clean-is_doubled (d ∷ s) tail in
    let single : (nat_beq c slash && nat_beq d slash) ≡ false = ground arith in
    ap (λ b. if b then clean (d ∷ s) else c ∷ clean (d ∷ s)) single ∙ ap (λ r. c ∷ r) below

abbrev node_of : Text → Option Text → Result Text EtcdNode
node_of key none = err (codes "Key not found")
node_of key (some value) = ok (leaf key value)

abbrev math : Kite
math = record {
  name = codes "math";
  username = codes "devrim";
  id = codes "7f2c";
  environment = codes "prod";
  region = codes "eu";
  version = codes "1.0.0";
  hostname = codes "host";
}

abbrev value : RegisterValue
value = record { url = codes "http://a"; key_id = codes "k" }

-- Only the value is encoded.
abbrev encoded : Text
encoded = codes "{url}"

abbrev marshal : RegisterValue → Result Text Text
marshal v =
    if text_beq v.url value.url && text_beq v.key_id value.key_id
    then ok encoded
    else err (codes "unknown value")

abbrev client : EtcdClient
client = record {
  Tree = Dict Text Text;
  get = λ key t. node_of (clean key) (lookup (clean key) t);
  set = λ key v p t. (insert (clean key) v t, ok tt);
  delete = λ key t. (remove (clean key) t, ok tt);
  marshal = marshal;
  unmarshal = λ s. if text_beq s encoded then some value else none;
}

get_set :
    (key v : Text) (t t' : Dict Text Text)
    → is_doubled key ≡ false
    → client.set key v prev_ignore t ≡ (t', ok tt)
    → client.get key t' ≡ ok (leaf key v)
get_set key v t t' h e =
    let made : insert (clean key) v t ≡ t' = cc in
    let same = clean-is_doubled key h in
    ap (λ d. node_of (clean key) (lookup (clean key) d)) (sym made)
    ∙ ap (node_of (clean key)) (
        lookup-insert (clean key) (clean key) v t
        ∙ ap (λ b. if b then some v else lookup (clean key) t) (==_refl (clean key)))
    ∙ ap (λ j. ok (leaf j v)) same

get_set_other :
    (j key v held : Text) (t t' : Dict Text Text)
    → is_doubled j ≡ false
    → is_doubled key ≡ false
    → client.set key v prev_ignore t ≡ (t', ok tt)
    → client.get j t ≡ ok (leaf j held)
    → j ≢ key
    → client.get j t' ≡ ok (leaf j held)
get_set_other j key v held t t' h g e was apart =
    let made : insert (clean key) v t ≡ t' = cc in
    ap (λ d. node_of (clean j) (lookup (clean j) d)) (sym made)
    ∙ ap (node_of (clean j)) (
        lookup-insert (clean key) (clean j) v t
        ∙ ap (λ b. if b then some v else lookup (clean j) t)
            (other (Bool-cases (clean key == clean j))))
    ∙ was
  where
    other :
        ((clean key == clean j) ≡ true) ⊎ ((clean key == clean j) ≡ false)
        → (clean key == clean j) ≡ false
    other (inr n) = n
    other (inl y) = absurd (
        apart (
          sym (clean-is_doubled j h)
          ∙ sym ((==_iff (clean key) (clean j)).0 y)
          ∙ clean-is_doubled key g))

doubled_slash :
    (rest : Text) (t : Dict Text Text)
    → client.get (kites_prefix ++ slash ∷ slash ∷ rest) t
      ≡ client.get (kites_prefix ++ slash ∷ rest) t
unfolding clean
doubled_slash rest t = refl

abbrev value_of_parts : Text → Text → RegisterValue
value_of_parts u k = record { url = u; key_id = k }

value_ap : {u u' k k' : Text} → u ≡ u' → k ≡ k' → value_of_parts u k ≡ value_of_parts u' k'
value_ap {u' = u'} {k = k} p q = ap (λ x. value_of_parts x k) p ∙ ap (value_of_parts u') q

round_trip :
    (v : RegisterValue) (s : Text)
    → marshal v ≡ ok s
    → (client.unmarshal s ≡ some v) × (is_empty s ≡ false)
unfolding text_beq
round_trip v s h =
    by_tests (text_beq v.url value.url) (text_beq v.key_id value.key_id)
      ((text_beq_iff v.url value.url).0) ((text_beq_iff v.key_id value.key_id).0) h
  where
    by_tests :
        (a b : Bool)
        → (a ≡ true → v.url ≡ value.url)
        → (b ≡ true → v.key_id ≡ value.key_id)
        → (if a && b then ok encoded else err (codes "unknown value")) ≡ ok s
        → (client.unmarshal s ≡ some v) × (is_empty s ≡ false)
    by_tests true true u k e =
        let same : encoded ≡ s = cc in
        let whole : value ≡ v = value_ap (sym (u refl)) (sym (k refl)) in
        (ap client.unmarshal (sym same) ∙ ap some whole, ap is_empty (sym same))
    by_tests true false u k e = absurd (cc)
    by_tests false b u k e = absurd (cc)

client-Laws : Laws client
client-Laws = record {
  get_set = get_set;
  get_set_other = get_set_other;
  doubled_slash = doubled_slash;
  round_trip = round_trip;
}

abbrev versions : Versions
versions = record {
  Version = Text;
  Constraint = Text;
  new_version = λ s. some s;
  new_constraint = λ s. ok s;
  check = λ c v. true;
}

abbrev perm : ℕ → List ℕ
perm zero = []
perm (suc n) = n ∷ perm n

key_order-covers : CoversFields key_order
key_order-covers Field.username = Memᴰ.head refl
key_order-covers Field.environment = Memᴰ.tail (Memᴰ.head refl)
key_order-covers Field.name = Memᴰ.tail (Memᴰ.tail (Memᴰ.head refl))
key_order-covers Field.version = Memᴰ.tail (Memᴰ.tail (Memᴰ.tail (Memᴰ.head refl)))
key_order-covers Field.region = Memᴰ.tail (Memᴰ.tail (Memᴰ.tail (Memᴰ.tail (Memᴰ.head refl))))
key_order-covers Field.hostname =
    Memᴰ.tail (Memᴰ.tail (Memᴰ.tail (Memᴰ.tail (Memᴰ.tail (Memᴰ.head refl)))))
key_order-covers Field.id =
    Memᴰ.tail (Memᴰ.tail (Memᴰ.tail (Memᴰ.tail (Memᴰ.tail (Memᴰ.tail (Memᴰ.head refl))))))

math-valid : validate_kite_key key_order math ≡ ok tt
unfolding validate_kite_key field query
math-valid = refl

abbrev tree : Dict Text Text
tree =
    (codes "/kites/devrim/prod/math/1.0.0/eu/host/7f2c", encoded)
    ∷ (codes "/kites/7f2c", encoded)
    ∷ []

add-math : add client math value [] ≡ (tree, ok tt)
unfolding add text_beq insert clean kite.Protocol.string
add-math = refl

abbrev by_id : KontrolQuery
by_id = record {
  username = [];
  environment = [];
  name = [];
  version = [];
  region = [];
  hostname = [];
  id = codes "7f2c";
}

by_id-alone : only_id_query by_id ≡ true
unfolding only_id_query
by_id-alone = refl

by_fields-by_id : selection versions by_id.version ≡ by_fields
unfolding selection
by_fields-by_id = refl

missing : client.get (kites_prefix ++ slash ∷ encoded) tree ≡ err (codes "Key not found")
unfolding clean lookup text_beq
missing = refl

marshal-value : client.marshal value ≡ ok encoded
unfolding text_beq
marshal-value = refl

get_kites-only_id_example :
    get_kites client versions perm by_id tree ≡ err (client_error (codes "Key not found"))
get_kites-only_id_example =
    get_kites-only_id client client-Laws versions perm key_order by_id math value encoded
      (codes "Key not found") [] tree key_order-covers math-valid by_id-alone refl by_fields-by_id
      marshal-value missing add-math

-- ===== src/Kontrol/Etcd/Added.antt =====
-- kontrol/etcd.go: the keys that an addition sets, and that of the kite's own query.
use kite.Common.{
  nat_beq, if◌then◌else◌, nat_eq, Text, codes, text_eq, is_empty, contains_byte, contains_text,
  count_byte, Result, ok, err, ◌≡◌, refl, sym, ap, ◌∙◌, ◌≢◌, Bool, true, false, none, some, List,
  [], ◌∷◌, ◌++◌, map, arith,
}
use kite.Protocol.Validity.{contains_double_last}
use kite.Protocol.{
  empty_field, slash_in_field, validate, Kite, RegisterValue, Field, field, slash, string, query,
}
use kite.Kontrol.QueryKey.{get_query_key, only_id_query, validate_kite_key, others_empty, key_order}
use kite.Kontrol.QueryKey.Validity.{validate_kite_key_iff, CoversFields, IsGood-field}
use kite.Kontrol.QueryKey.Shape.{
  get_query_key-eq-spec, gap_free, leading, path_of, query_values, value_of,
}
use kite.Kontrol.QueryKey.Match.{string-path_of}
use kite.Kontrol.Node.{leaf, value}
use kite.Kontrol.Node.Stored.{kites_prefix}
use kite.Kontrol.Etcd.{EtcdClient, prev_ignore, key_of_kite, key_of_id, add, and_then, with_value}

module _ (fs : Field → Text) where
  gap_free-set :
      (keys : List Field)
      → ((f : Field) → is_empty (fs f) ≡ false)
      → (gap_free (map fs keys) ≡ true) × (leading (map fs keys) ≡ map fs keys)
  gap_free-set [] h = (refl, refl)
  gap_free-set (f ∷ keys) h =
      let (free, all) = gap_free-set keys h in let here = h f in (ground arith, ground arith)

module _ (order : List Field) (covers : CoversFields order) (k : Kite)
    (valid : validate_kite_key order k ≡ ok tt) where
  set_field : (f : Field) → is_empty (field (query k) f) ≡ false
  set_field f = (IsGood-field order covers k valid f).0

  -- The key of a kite's own query is the kite's.
  pub get_query_key-query : get_query_key (query k) ≡ ok (string k)
  unfolding query field
  get_query_key-query =
      let (free, all) = gap_free-set (field (query k)) key_order set_field in
      let has_name = set_field Field.username in
      let spec = get_query_key-eq-spec (query k) in
      let path = string-path_of k in
      of_value (get_query_key (query k)) (
        spec
        ∙ ap
            (λ b.
              if b
              then none
              else if gap_free (query_values (query k))
              then some (path_of (leading (query_values (query k))))
              else none)
            has_name
        ∙ ap (λ b. if b then some (path_of (leading (query_values (query k)))) else none) free
        ∙ ap (λ vs. some (path_of vs)) all
        ∙ ap some (sym path))
    where
      of_value : {E A : Type 0} {a : A} (r : Result E A) → value_of r ≡ some a → r ≡ ok a
      of_value (ok b) h = ground arith
      of_value (err e) h = absurd (cc)

  pub only_id_query-query : only_id_query (query k) ≡ false
  unfolding only_id_query others_empty query field
  only_id_query-query = let h = set_field Field.username in ground arith

  contains-append : (s t : Text) → contains_byte slash (s ++ slash ∷ t) ≡ true
  contains-append [] t = refl
  contains-append (c ∷ s) t = let h = contains-append s t in ground arith

  abbrev rest_of : Text → Text
  rest_of [] = []
  rest_of (c ∷ s) = s

  -- What stands behind "/kites/".
  abbrev behind_prefix : Text → Text
  behind_prefix s = rest_of (rest_of (rest_of (rest_of (rest_of (rest_of (rest_of s))))))

  no_truth : true ≢ false
  no_truth e = cc

  pub key_of_kite-is_doubled : contains_text (key_of_kite k) (codes "//") ≡ false
  unfolding validate contains_text string
  key_of_kite-is_doubled =
      let (validated, has_id) = (validate_kite_key_iff order covers k).0 valid in
      not_doubled (contains_text (string k) (codes "//")) (nat_beq (count_byte slash (string k)) 7)
        validated
    where
      not_doubled :
          (a b : Bool)
          → (if a then err empty_field else if b then ok tt else err slash_in_field) ≡ ok tt
          → a ≡ false
      not_doubled true b h = absurd (cc)
      not_doubled false b h = refl

  pub key_of_id-is_doubled : contains_text (key_of_id k.id) (codes "//") ≡ false
  unfolding contains_text field query
  key_of_id-is_doubled = contains_double_last k.id (IsGood-field order covers k valid Field.id).1

  pub key_of_kite-apart : key_of_kite k ≢ key_of_id k.id
  unfolding string query field
  key_of_kite-apart e =
      let no_slash = (IsGood-field order covers k valid Field.id).1 in
      let tails = ap (λ s. contains_byte slash (behind_prefix s)) e in
      let has_slash = contains-append k.username _ in
      absurd (no_truth (sym has_slash ∙ tails ∙ no_slash))

-- A key that is not in the form that etcd's client brings it to.
abbrev pub is_doubled : Text → Bool
is_doubled key = contains_text key (codes "//")

-- What the storage relies on. In etcd, the node of a key that was set is a leaf with the value, which
-- stays when another key is set, where no slash in the keys is doubled, and a key with a doubled slash names the node of the key without
-- it. A value that was encoded is not empty and is decoded to what it was.
pub record Laws (client : EtcdClient) : Type 0 where
  pub get_set :
      (key value : Text) (t t' : client.Tree)
      → is_doubled key ≡ false
      → client.set key value prev_ignore t ≡ (t', ok tt)
      → client.get key t' ≡ ok (leaf key value)
  pub get_set_other :
      (j key value held : Text) (t t' : client.Tree)
      → is_doubled j ≡ false
      → is_doubled key ≡ false
      → client.set key value prev_ignore t ≡ (t', ok tt)
      → client.get j t ≡ ok (leaf j held)
      → j ≢ key
      → client.get j t' ≡ ok (leaf j held)
  pub doubled_slash :
      (rest : Text) (t : client.Tree)
      → client.get (kites_prefix ++ slash ∷ slash ∷ rest) t
        ≡ client.get (kites_prefix ++ slash ∷ rest) t
  pub round_trip :
      (v : RegisterValue) (s : Text)
      → client.marshal v ≡ ok s
      → (client.unmarshal s ≡ some v) × (is_empty s ≡ false)

module _ (client : EtcdClient) (laws : Laws client) where
  open client use {Tree, get, set, marshal, unmarshal}

  -- An addition that succeeds has set both keys to the encoded value.
  pub record IsAdded (k : Kite) (v : RegisterValue) (t t' : Tree) : Type 0 where
    pub value : Text
    pub between : Tree
    pub encoded : marshal v ≡ ok value
    pub first : set (key_of_kite k) value prev_ignore t ≡ (between, ok tt)
    pub second : set (key_of_id k.id) value prev_ignore between ≡ (t', ok tt)

  pub add-IsAdded :
      (k : Kite) (v : RegisterValue) (t t' : Tree)
      → add client k v t ≡ (t', ok tt)
      → IsAdded k v t t'
  unfolding add
  add-IsAdded k v t t' h = by_value (marshal v) refl h
    where
      by_set :
          (value : Text) (done : Tree × Result Text Unit)
          → marshal v ≡ ok value
          → set (key_of_kite k) value prev_ignore t ≡ done
          → and_then client done (λ t. set (key_of_id k.id) value prev_ignore t) ≡ (t', ok tt)
          → IsAdded k v t t'
      by_set value (between, err e) m s h = absurd (cc)
      by_set value (between, ok tt) m s h = record {
        value = value;
        between = between;
        encoded = m;
        first = s;
        second = h;
      }

      by_value :
          (m : Result Text Text)
          → marshal v ≡ m
          → with_value client t m (λ value.
            and_then client
              (set (key_of_kite k) value prev_ignore t)
              λ t. set (key_of_id k.id) value prev_ignore t)
            ≡ (t', ok tt)
          → IsAdded k v t t'
      by_value (err e) m h = absurd (cc)
      by_value (ok value) m h = by_set value (set (key_of_kite k) value prev_ignore t) m refl h

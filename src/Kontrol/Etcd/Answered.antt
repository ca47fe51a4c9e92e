-- ===== src/Kontrol/Etcd/Answered.antt =====
-- kontrol/etcd.go: the answers to queries for a kite that was added.
use kite.Common.{
  if◌then◌else◌, nat_eq, Text, text_eq, ok, err, ℕ, ◌≡◌, ap, ◌∙◌, true, List, [], ◌∷◌, ◌++◌, arith,
}
use kite.Protocol.{Kite, KontrolQuery, KiteWithToken, RegisterValue, Field, slash}
use kite.Kontrol.QueryKey.{get_query_key, only_id_query, validate_kite_key}
use kite.Kontrol.QueryKey.Validity.{CoversFields}
use kite.Kontrol.Node.{value}
use kite.Kontrol.Node.Stored.{kites_prefix}
use kite.Kontrol.Kites.{Versions, selection, by_fields}
use kite.Kontrol.Etcd.{
  EtcdClient, client_error, key_of_id, add, etcd_key, of_query_key, value_of_node, get_kites,
  with_key, by_selection, of_node,
}
use kite.Kontrol.Etcd.Added.{key_of_id-is_doubled, Laws, add-IsAdded}

-- The answer with a kite that was stored with a value.
abbrev pub answered : Kite → RegisterValue → KiteWithToken
answered k v = record { kite = k; url = v.url; key_id = v.key_id; token = [] }

module _ (client : EtcdClient) (laws : Laws client) (versions : Versions) (perm : ℕ → List ℕ) where
  open client use {Tree, get, set, marshal, unmarshal}

  -- A kite that is accepted and that was added is looked up, in a query for its id alone, under its
  -- encoded value: the client's error for that key is the answer.
  pub get_kites-only_id :
      (order : List Field) (q : KontrolQuery) (k : Kite) (v : RegisterValue) (raw e : Text)
      (t t' : Tree)
      → CoversFields order
      → validate_kite_key order k ≡ ok tt
      → only_id_query q ≡ true
      → q.id ≡ k.id
      → selection versions q.version ≡ by_fields
      → marshal v ≡ ok raw
      → get (kites_prefix ++ slash ∷ raw) t' ≡ err e
      → add client k v t ≡ (t', ok tt)
      → get_kites client versions perm q t' ≡ err (client_error e)
  unfolding get_kites etcd_key
  get_kites-only_id order q k v raw e t t' covers valid alone same plain encoded missing added =
      let a = add-IsAdded client laws k v t t' added in
      let held =
        laws.get_set (key_of_id k.id) a.value a.between t'
          (key_of_id-is_doubled order covers k valid) a.second in
      let same_value : a.value ≡ raw = let m = a.encoded in ground arith in
      ap (with_key client versions perm q t') (
        ap
          (λ b.
            if b
            then value_of_node client (get (key_of_id q.id) t')
            else of_query_key client (get_query_key q))
          alone
        ∙ ap (λ i. value_of_node client (get (key_of_id i) t')) same
        ∙ ap (value_of_node client) held
        ∙ ap ok same_value)
      ∙ ap (by_selection client versions perm q raw t') plain
      ∙ ap (of_node client versions perm (λ ks. ks)) missing

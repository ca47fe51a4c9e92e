-- ===== src/Kontrol/Etcd.antt =====
-- kontrol/etcd.go: the storage of kites in etcd, over its client.
pub mod Added
pub mod Answered
use kite.Common.{
  ltb, leb, nat_beq, if◌then◌else◌, nat_beq_iff, Bool-cases, Option-cases, Result-cases, Eq, ◌==◌,
  ==_iff, ==_refl, nat_eq, Text, codes, text_beq, text_beq_iff, text_eq, is_empty, contains_byte,
  has_prefix, has_prefix-append, trim_space, contains_text, count_byte, cut_at, split_n, split,
  part, cut_at_here, cut_at-append, cut_at-none, split_n-append, split-append, split_whole,
  count_byte-append, count_byte_zero, count_byte_none, count_byte_here, Result, ok, err, ◌>>=◌,
  ◌>>◌, ℕ, zero, suc, ◌+◌, ◌-◌, ◌*◌, ◌/◌, ◌%◌, ◌^◌, ◌≤◌, ◌<◌, ◌≡◌, refl, sym, ap, ◌∙◌, ◌≢◌, ◌↔◌,
  ◌⊎◌, inl, inr, Bool, true, false, ◌&&◌, ◌||◌, not, Option, none, some, List, [], ◌∷◌, ◌++◌, map,
  append_assoc, append-nil, arith,
}
use kite.Protocol.{Kite, KontrolQuery, KiteWithToken, RegisterValue, slash, string}
use kite.Kontrol.QueryKey.{KeyError, get_query_key, only_id_query}
use kite.Kontrol.Node.{EtcdNode, NodeError, value_at, has_value, node_kite, node_kites}
use kite.Kontrol.Node.Stored.{kites_prefix}
use kite.Kontrol.Kites.{
  Versions, Selection, by_fields, by_constraint, malformed, selection, filter, shuffle, name_query,
  key_rest_of,
}

-- The field `PrevExist` of etcd's SetOptions.
pub data PrevExist : Type 0 where
  prev_ignore prev_exist : PrevExist

-- etcd's client (github.com/coreos/etcd/client): `get` with Recursive, `set` with TTL KeyTTL, and
-- `delete` with Recursive; and encoding/json on values.
pub record EtcdClient : Type 1 where
  pub Tree : Type 0
  pub get : Text → Tree → Result Text EtcdNode
  pub set : Text → Text → PrevExist → Tree → Tree × Result Text Unit
  pub delete : Text → Tree → Tree × Result Text Unit
  pub marshal : RegisterValue → Result Text Text
  pub unmarshal : Text → Option RegisterValue

pub data EtcdError : Type 0 where
  client_error : Text → EtcdError
  key_error : KeyError → EtcdError
  node_error : NodeError → EtcdError
  bad_version : Text → EtcdError

-- `nonil` of two errors.
abbrev pub nonil : Result Text Unit → Result Text Unit → Result Text Unit
nonil (err e) r = err e
nonil (ok _) r = r

abbrev pub key_of_kite : Kite → Text
key_of_kite k = kites_prefix ++ string k

abbrev pub key_of_id : Text → Text
key_of_id id = kites_prefix ++ slash ∷ id

abbrev pub key_of_username : Text → Text
key_of_username name = kites_prefix ++ slash ∷ name

module _ (client : EtcdClient) where
  open client use {Tree, get, set, delete, marshal, unmarshal}

  abbrev pub Done : Type 0
  Done = Tree × Result Text Unit

  abbrev pub and_then : Done → (Tree → Done) → Done
  and_then (t, err e) next = (t, err e)
  and_then (t, ok _) next = next t

  -- `Delete`
  abbrev pub deleted_id : Kite → Done → Done
  deleted_id k (t, e1) = let (t', e2) = delete (key_of_id k.id) t in (t', nonil e1 e2)

  unfoldable pub delete_kite : Kite → Tree → Done
  delete_kite k t = deleted_id k (delete (key_of_kite k) t)

  -- `Clear`
  unfoldable pub clear : Tree → Done
  clear t = delete kites_prefix t

  abbrev pub with_value : Tree → Result Text Text → (Text → Done) → Done
  with_value t (err e) next = (t, err e)
  with_value t (ok value) next = next value

  -- `Add`, and `Upsert`, which is the same
  unfoldable pub add : Kite → RegisterValue → Tree → Done
  add k v t = with_value t (marshal v) λ value.
      and_then (set (key_of_kite k) value prev_ignore t)
        λ t. set (key_of_id k.id) value prev_ignore t

  unfoldable pub upsert : Kite → RegisterValue → Tree → Done
  unfolding add
  upsert k v t = add k v t

  -- `Update`
  abbrev pub updated : Kite → RegisterValue → Text → Done → Done
  updated k v value (t, err e) = add k v t
  updated k v value (t, ok _) =
      and_then (set (key_of_id k.id) value prev_exist t)
        λ t. set (key_of_username k.username) [] prev_exist t

  unfoldable pub update : Kite → RegisterValue → Tree → Done
  unfolding add
  update k v t =
      with_value t (marshal v) λ value. updated k v value (set (key_of_kite k) value prev_exist t)

  -- `etcdKey`
  abbrev pub value_of_node : Result Text EtcdNode → Result EtcdError Text
  value_of_node (err e) = err (client_error e)
  value_of_node (ok n) = ok (value_at n)

  abbrev pub of_query_key : Result KeyError Text → Result EtcdError Text
  of_query_key (err e) = err (key_error e)
  of_query_key (ok key) = ok key

  unfoldable pub etcd_key : KontrolQuery → Tree → Result EtcdError Text
  unfolding only_id_query get_query_key
  etcd_key q t =
      if only_id_query q
      then value_of_node (get (key_of_id q.id) t)
      else of_query_key (get_query_key q)

  module _ (versions : Versions) (perm : ℕ → List ℕ) where
    abbrev pub Got : Type 0
    Got = Result EtcdError (List (Option KiteWithToken))

    abbrev pub shuffled :
        (List KiteWithToken → List KiteWithToken) → Result NodeError (List KiteWithToken) → Got
    shuffled filtered (err e) = err (node_error e)
    shuffled filtered (ok ks) = ok (shuffle perm (filtered ks))

    abbrev pub single : Result NodeError KiteWithToken → Got
    single (err e) = err (node_error e)
    single (ok k) = ok (shuffle perm (k ∷ []))

    -- The rest of `Get`, from the node that the client got. A node with a value is a single kite, and
    -- is not filtered.
    abbrev pub of_node : (List KiteWithToken → List KiteWithToken) → Result Text EtcdNode → Got
    of_node filtered (err e) = err (client_error e)
    of_node filtered (ok n) =
        if has_value n
        then single (node_kite unmarshal n)
        else shuffled filtered (node_kites unmarshal n)

    abbrev pub at_key : (List KiteWithToken → List KiteWithToken) → Text → Tree → Got
    at_key filtered key t = of_node filtered (get (kites_prefix ++ slash ∷ key) t)

    -- The key of the name; its error is dropped, and with it the key is empty.
    abbrev pub key_or_empty : Result KeyError Text → Text
    key_or_empty (ok key) = key
    key_or_empty (err e) = []

    abbrev pub by_selection : KontrolQuery → Text → Tree → Selection versions → Got
    by_selection q key t (malformed e) = err (bad_version e)
    by_selection q key t by_fields = at_key (λ ks. ks) key t
    by_selection q key t (by_constraint c) =
        at_key (filter versions c (key_rest_of q)) (key_or_empty (get_query_key (name_query q))) t

    abbrev pub with_key : KontrolQuery → Tree → Result EtcdError Text → Got
    with_key q t (err e) = err e
    with_key q t (ok key) = by_selection q key t (selection versions q.version)

    -- `Get`
    unfoldable pub get_kites : KontrolQuery → Tree → Got
    unfolding etcd_key selection filter has_value node_kite node_kites shuffle
    get_kites q t = with_key q t (etcd_key q t)

-- ===== src/Kontrol/Postgres.antt =====
-- kontrol/postgres.go: the storage of kites and of key pairs in PostgreSQL, over its statements.
pub mod Storing
pub mod Answers
use kite.Common.{
  ltb, leb, nat_beq, if◌then◌else◌, nat_beq_iff, Bool-cases, Option-cases, Result-cases, Eq, ◌==◌,
  ==_iff, ==_refl, nat_eq, Text, codes, text_beq, text_beq_iff, text_eq, is_empty, contains_byte,
  has_prefix, has_prefix-append, trim_space, contains_text, count_byte, cut_at, split_n, split,
  part, cut_at_here, cut_at-append, cut_at-none, split_n-append, split-append, split_whole,
  count_byte-append, count_byte_zero, count_byte_none, count_byte_here, Result, ok, err, ◌>>=◌,
  ◌>>◌, ℕ, zero, suc, ◌+◌, ◌-◌, ◌*◌, ◌/◌, ◌%◌, ◌^◌, ◌≤◌, ◌<◌, ◌≡◌, refl, sym, ap, ◌∙◌, ◌≢◌, ◌↔◌,
  ◌⊎◌, inl, inr, Bool, true, false, ◌&&◌, ◌||◌, not, Option, none, some, List, [], ◌∷◌, ◌++◌, map,
  append_assoc, append-nil, arith,
}
use kite.Protocol.{Kite, KontrolQuery, KiteWithToken, RegisterValue, Field, field, values}
use kite.Kontrol.QueryKey.{key_order}
use kite.Kontrol.Kites.{
  Versions, Selection, by_fields, by_constraint, malformed, selection, filter, shuffle, name_query,
  key_rest_of,
}
use kite.Kontrol.KeyPair.{
  KeyPair, KeyPairError, validate, not_found, key_deleted, other_error, only_error,
}

pub data PostgresError : Type 0 where
  query_fields_empty key_id_empty : PostgresError
  bad_url : Text → PostgresError
  sql_error : Text → PostgresError

-- The loop of `selectQuery`: the columns that are compared, by their fields.
unfoldable pub conditions : KontrolQuery → List Field → List (Field × Text)
conditions q [] = []
conditions q (key ∷ keys) =
    let rest = conditions q keys in
    if is_empty (field q key) then rest else (key, field q key) ∷ rest

-- `selectQuery`, up to the text that squirrel makes of it.
abbrev some_conditions : List (Field × Text) → Result PostgresError (List (Field × Text))
some_conditions [] = err query_fields_empty
some_conditions (c ∷ cs) = ok (c ∷ cs)

unfoldable pub select_query : KontrolQuery → Result PostgresError (List (Field × Text))
unfolding conditions
select_query q = some_conditions (conditions q key_order)

-- The statements of the program, as database/sql runs them on the tables: an insert has the values of
-- `insertKiteQuery`, the update of `Upsert` sets the url and the key's id and tells how many rows it
-- changed, and that of `Update` sets the url. In a transaction, `committed` and `rolled_back` take
-- the tables before it and inside it.
pub record Sql : Type 1 where
  pub Tables : Type 0
  pub parse_url : Text → Result Text Unit
  pub select_kites : List (Field × Text) → Tables → Result Text (List KiteWithToken)
  pub begins : Tables → Result Text Unit
  pub upserting : Text → Text → Text → Tables → Result Text (Tables × ℕ)
  pub insert_kite : List Text → Tables → Result Text Tables
  pub update_url : Text → Text → Tables → Result Text Tables
  pub delete_kite : Text → Tables → Result Text Tables
  pub commits : Tables → Tables → Result Text Unit
  pub rolls_back : Tables → Result Text Unit
  pub insert_key : Text → Text → Text → Tables → Result Text Tables
  pub mark_deleted : Text → Tables → Result Text Tables
  pub key_by_id : Text → Tables → Result Text (Option (KeyPair × Bool))
  pub key_by_public : Text → Tables → Result Text (Option (KeyPair × Bool))

-- What `insertKiteQuery` inserts.
abbrev pub insert_values : Kite → Text → Text → List Text
insert_values k url key_id = values k ++ url ∷ key_id ∷ []

module _ (sql : Sql) where
  open sql use {
    Tables, parse_url, select_kites, begins, upserting, insert_kite, update_url, delete_kite,
    commits, rolls_back, insert_key, mark_deleted, key_by_id, key_by_public,
  }

  abbrev pub Done : Type 0
  Done = Tables × Result PostgresError Unit

  -- A statement outside of a transaction.
  abbrev pub executed : Tables → Result Text Tables → Done
  executed s (ok s') = (s', ok tt)
  executed s (err e) = (s, err (sql_error e))

  abbrev pub with_url : Tables → Result Text Unit → Done → Done
  with_url s (err e) next = (s, err (bad_url e))
  with_url s (ok _) next = next

  -- `Add`, `Update` and `Delete`
  unfoldable pub add : Kite → RegisterValue → Tables → Done
  add k v s =
      with_url s (parse_url v.url) (executed s (insert_kite (insert_values k v.url v.key_id) s))

  unfoldable pub update : Kite → RegisterValue → Tables → Done
  update k v s = with_url s (parse_url v.url) (executed s (update_url v.url k.id s))

  unfoldable pub delete : Kite → Tables → Done
  delete k s = executed s (delete_kite k.id s)

  -- The body of the transaction in `Upsert`.
  abbrev pub after_update : Kite → RegisterValue → Result Text (Tables × ℕ) → Result Text Tables
  after_update k v (err e) = err e
  after_update k v (ok (t, zero)) = insert_kite (insert_values k v.url v.key_id) t
  after_update k v (ok (t, suc n)) = ok t

  -- The deferred function: the error of the body is replaced by that of the roll back.
  abbrev pub finished : Tables → Result Text Unit → Tables → Done
  finished s (err e) t = (s, err (sql_error e))
  finished s (ok _) t = (t, ok tt)

  abbrev pub deferred : Tables → Result Text Tables → Done
  deferred s (err e) = finished s (rolls_back s) s
  deferred s (ok t) = finished s (commits s t) t

  abbrev pub begun : Kite → RegisterValue → Tables → Result Text Unit → Done
  begun k v s (err e) = (s, err (sql_error e))
  begun k v s (ok _) = deferred s (after_update k v (upserting v.url k.id v.key_id s))

  -- `Upsert`
  unfoldable pub upsert : Kite → RegisterValue → Tables → Done
  upsert k v s =
      with_url s (parse_url v.url)
        (if is_empty v.key_id then (s, err key_id_empty) else begun k v s (begins s))

  module _ (versions : Versions) (perm : ℕ → List ℕ) where
    abbrev pub Got : Type 0
    Got = Result PostgresError (List (Option KiteWithToken))

    -- The end of `Get`: a single kite is returned as it is.
    abbrev pub of_rows :
        (List KiteWithToken → List KiteWithToken) → Result Text (List KiteWithToken) → Got
    of_rows filtered (err e) = err (sql_error e)
    of_rows filtered (ok (k ∷ [])) = ok (some k ∷ [])
    of_rows filtered (ok ks) = ok (shuffle perm (filtered ks))

    abbrev pub selected :
        (List KiteWithToken → List KiteWithToken)
        → Tables
        → Result PostgresError (List (Field × Text))
        → Got
    selected filtered s (err e) = err e
    selected filtered s (ok conds) = of_rows filtered (select_kites conds s)

    abbrev pub by_selection : KontrolQuery → Tables → Selection versions → Got
    by_selection q s (malformed e) = err (sql_error e)
    by_selection q s by_fields = selected (λ ks. ks) s (select_query q)
    by_selection q s (by_constraint c) =
        selected (filter versions c (key_rest_of q)) s (select_query (name_query q))

    abbrev pub checked : KontrolQuery → Tables → Result PostgresError (List (Field × Text)) → Got
    checked q s (err e) = err e
    checked q s (ok conds) = by_selection q s (selection versions q.version)

    -- `Get`
    unfoldable pub get : KontrolQuery → Tables → Got
    unfolding select_query selection filter
    get q s = checked q s (select_query q)

  -- `getKey`
  abbrev pub of_row : Result Text (Option (KeyPair × Bool)) → Result KeyPairError KeyPair
  of_row (err e) = err (other_error e)
  of_row (ok none) = err not_found
  of_row (ok (some (k, true))) = err key_deleted
  of_row (ok (some (k, false))) = ok k

  unfoldable pub get_key_from_id : Text → Tables → Result KeyPairError KeyPair
  get_key_from_id i s = of_row (key_by_id i s)

  unfoldable pub get_key_from_public : Text → Tables → Result KeyPairError KeyPair
  get_key_from_public p s = of_row (key_by_public p s)

  -- `IsValid`
  unfoldable pub is_valid_key : Text → Tables → Result KeyPairError Unit
  unfolding get_key_from_public
  is_valid_key p s = only_error (get_key_from_public p s)

  abbrev pub KeyDone : Type 0
  KeyDone = Tables × Result KeyPairError Unit

  abbrev pub key_executed : Tables → Result Text Tables → KeyDone
  key_executed s (ok s') = (s', ok tt)
  key_executed s (err e) = (s, err (other_error e))

  -- `AddKey`
  unfoldable pub add_key : KeyPair → Tables → KeyDone
  add_key k s = elim (validate k) [
    | err e ↦ (s, err e)
    | ok _ ↦ key_executed s (insert_key k.id k.public k.private s)
  ]

  -- `DeleteKey`
  unfoldable pub delete_key : KeyPair → Tables → KeyDone
  delete_key k s = key_executed s (mark_deleted k.id s)

-- ===== src/Kontrol/Postgres/Storing.antt =====
-- kontrol/postgres.go: what is reported of a kite or of a key pair, and what is stored.
use kite.Common.{
  if◌then◌else◌, nat_eq, Text, text_eq, is_empty, Result, ok, err, ◌≡◌, ap, ◌∙◌, Bool, true, false,
  some,
}
use kite.Protocol.{Kite, RegisterValue}
use kite.Kontrol.KeyPair.{only_error, KeyPair, key_deleted}
use kite.Kontrol.Postgres.{
  key_id_empty, Sql, upsert, with_url, begun, deferred, after_update, finished, delete_key,
  get_key_from_id, get_key_from_public, is_valid_key, of_row, key_executed,
}

module _ (sql : Sql) where
  open sql use {
    Tables, parse_url, select_kites, begins, upserting, insert_kite, commits, rolls_back,
    mark_deleted, key_by_id, key_by_public,
  }

  abbrev is_done : Result Text Tables → Bool
  is_done (ok t) = true
  is_done (err e) = false

  -- What the statements of an upsert make of the tables: the update, and the insert if it changed
  -- no row.
  abbrev pub statements : Kite → RegisterValue → Tables → Result Text Tables
  statements k v s = after_update sql k v (upserting v.url k.id v.key_id s)

  -- If the roll back succeeds, an upsert whose statements fail leaves the tables as they were and
  -- reports a success. This is once the url was parsed, the key's id is not empty, and the
  -- transaction has begun.
  pub upsert-rolled_back :
      (k : Kite) (v : RegisterValue) (e : Text) (s : Tables)
      → parse_url v.url ≡ ok tt
      → is_empty v.key_id ≡ false
      → begins s ≡ ok tt
      → statements k v s ≡ err e
      → rolls_back s ≡ ok tt
      → upsert sql k v s ≡ (s, ok tt)
  unfolding upsert
  upsert-rolled_back k v e s parses has_key begun_ok fails rolled =
      ap
        (λ r.
          with_url sql s r
            (if is_empty v.key_id then (s, err key_id_empty) else begun sql k v s (begins s)))
        parses
      ∙ ap (λ b. if b then (s, err key_id_empty) else begun sql k v s (begins s)) has_key
      ∙ ap (begun sql k v s) begun_ok
      ∙ ap (deferred sql s) fails
      ∙ ap (λ r. finished sql s r s) rolled

  -- A key pair that is in the table and is deleted is answered as deleted from then on, by its id
  -- and by its public key, and it is no longer valid.
  pub delete_key-key_deleted :
      (k stored : KeyPair) (d : Bool) (s s' : Tables)
      → key_by_id k.id s ≡ ok (some (stored, d))
      → mark_deleted k.id s ≡ ok s'
      → ((i : Text) (kp : KeyPair) (d : Bool) (s s' : Tables)
          → key_by_id i s ≡ ok (some (kp, d))
          → mark_deleted i s ≡ ok s'
          → (key_by_id i s' ≡ ok (some (kp, true)))
            × (key_by_public kp.public s' ≡ ok (some (kp, true))))
      → (delete_key sql k s ≡ (s', ok tt))
        × (get_key_from_id sql k.id s' ≡ err key_deleted)
        × (get_key_from_public sql stored.public s' ≡ err key_deleted)
        × (is_valid_key sql stored.public s' ≡ err key_deleted)
  unfolding delete_key get_key_from_id get_key_from_public is_valid_key
  delete_key-key_deleted k stored d s s' held marked law =
      let (by_id, by_public) = law k.id stored d s s' held marked in
      (
        ap (key_executed sql s) marked,
        ap (of_row sql) by_id,
        ap (of_row sql) by_public,
        ap (λ r. only_error (of_row sql r)) by_public,
      )

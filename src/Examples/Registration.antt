-- ===== src/Examples/Registration.antt =====
-- Registrations at concrete values, with a kite key that holds the Kontrol key "old".
use kite.Common.{
  nat_eq, Text, codes, text_beq, text_eq, Result, ok, err, ℕ, suc, ◌≡◌, refl, true, false, Option,
  none, some, [], ◌++◌,
}
use kite.Protocol.{field, query, Kite, Auth, RegisterResult}
use kite.Kontrol.KeyPair.{KeyPair, KeyPairStorage, not_found}
use kite.Kontrol.QueryKey.{key_order, validate_kite_key}
use kite.Kontrol.Register.{
  Setup, Registry, get_or_update_key_pub, handle_register, handle_register_http,
}
use kite.Kontrol.Register.Stored.{Stored, handle_register-Stored, handle_register_http-Stored}

abbrev math : Kite
math = record {
  name = codes "math";
  username = codes "devrim";
  id = codes "7f2c";
  environment = codes "prod";
  region = codes "eu";
  version = codes "1.0.0";
  hostname = codes "host";
}

abbrev new_key : KeyPair
new_key = record { id = codes "2"; public = codes "new"; private = codes "priv2" }

-- A storage that holds no key pair.
abbrev no_pairs : KeyPairStorage
no_pairs = record {
  State = ℕ;
  add_key = λ k s. (s, ok tt);
  delete_key = λ k s. (s, ok tt);
  get_key_from_id = λ i s. (s, err not_found);
  get_key_from_public = λ p s. (s, err not_found);
  is_valid = λ p s. (s, err not_found);
}

-- A Kontrol that picks the new key pair for kite keys that it does not know, and counts its writes.
abbrev picking : Setup
picking = record {
  st = no_pairs;
  fresh = 0;
  W = ℕ;
  verifies = λ kite_key public. false;
  own_kite_key = codes "own";
  picker = some (ok new_key);
  extract = λ token. ok (codes "old");
  resign = λ private key token. some (token ++ key);
  authenticate_key = λ token. ok (codes "devrim");
  parse_url = λ url. true;
  order = key_order;
  upsert = λ kite value w. (suc w, true);
  heartbeat_interval = 10;
}

abbrev empty_registry : Registry picking
empty_registry = record {
  keys = record {
    key_pair = some 0;
    last_ids = [];
    last_public = [];
    last_private = [];
    self_key_pair = none;
  };
  world = 0;
}

abbrev by_kite_key : Auth
by_kite_key = record { type = codes "kiteKey"; key = codes "t" }

-- The public key that a registration tells.
abbrev told_key : {A E : Type 0} → A × Result E RegisterResult → Option Text
told_key (s, ok res) = some res.public_key
told_key (s, err e) = none

handle_register-tells :
    told_key (handle_register picking by_kite_key (ok (codes "http://h")) math empty_registry)
    ≡ some (codes "new")
unfolding handle_register text_beq validate_kite_key field query
handle_register-tells = refl

handle_register_http-tells :
    told_key (handle_register_http picking by_kite_key (codes "http://h") math empty_registry)
    ≡ some []
unfolding handle_register_http text_beq validate_kite_key field query
handle_register_http-tells = refl

handle_register-Stored_example :
    Stored picking
      (λ c. codes "old")
      (codes "http://h")
      math
      (get_or_update_key_pub picking (codes "t") (codes "old") empty_registry)
      (handle_register picking by_kite_key (ok (codes "http://h")) math empty_registry)
handle_register-Stored_example =
    handle_register-Stored picking by_kite_key (codes "http://h") math empty_registry (codes "old")
      refl

handle_register_http-Stored_example :
    Stored picking
      (λ c. c.claims_key)
      (codes "http://h")
      math
      (get_or_update_key_pub picking (codes "t") (codes "old") empty_registry)
      (handle_register_http picking by_kite_key (codes "http://h") math empty_registry)
handle_register_http-Stored_example =
    handle_register_http-Stored picking by_kite_key (codes "http://h") math empty_registry
      (codes "devrim") (codes "old") refl refl

-- ===== src/Examples/Serving.antt =====
-- Queries for kites and tokens, and the updater of a kite, at concrete values.
use kite.Common.{
  if◌then◌else◌, nat_eq, Text, codes, text_beq, text_eq, ok, ◌≤◌, ◌≡◌, refl, true, false, none,
  some, [], ◌∷◌, ◌++◌, arith,
}
use kite.Common.Dict.{Dict, lookup, insert, remove, lookup-insert, lookup-remove}
use kite.Protocol.{KontrolQuery, KiteWithToken}
use kite.Kontrol.KeyPair.{mem_get_key_from_id, KeyPair, Cache, mem_storage}
use kite.Kontrol.QueryKey.{get_audience}
use kite.Kontrol.Token.{generate_token, expire, leeway_of, ttl_of}
use kite.Kontrol.Serve.{Setup, Serving, handle_get_kites, handle_get_token}
use kite.Kontrol.Serve.Tokens.{
  KitesAnswer, TokenAnswer, handle_get_kites-KitesAnswer, handle_get_token-TokenAnswer,
}
use kite.Kontrol.Updater.{
  Beats, registered, send_ping, test_closed, time_out, step, restart, Reaches, start, next, upsert,
  pinged,
}
use kite.Kontrol.Updater.Running.{IsTended, IsTended-Reaches, tended_after_heartbeat}

abbrev dict_cache : Cache
dict_cache = record {
  Entries = Dict Text KeyPair;
  get = lookup;
  set = insert;
  delete = remove;
  get-set = λ k j v c. lookup-insert k j v c;
  get-delete = λ k j c. lookup-remove k j c;
}

abbrev own_key : KeyPair
own_key = record { id = codes "1"; public = codes "pub1"; private = codes "priv1" }

abbrev found_kite : KiteWithToken
found_kite = record {
  kite = record {
    name = codes "math";
    username = codes "devrim";
    id = codes "7f2c";
    environment = codes "prod";
    region = codes "eu";
    version = codes "1.0.0";
    hostname = codes "host";
  };
  url = codes "http://host";
  key_id = codes "1";
  token = [];
}

abbrev by_name : KontrolQuery
by_name = record {
  username = codes "devrim";
  environment = codes "prod";
  name = codes "math";
  version = [];
  region = [];
  hostname = [];
  id = [];
}

-- A Kontrol with one key pair, of which the storage finds the same kite for every query.
abbrev one_kite : Setup
one_kite = record {
  st = mem_storage dict_cache;
  fresh = record { id = []; public = [] };
  PrivateKey = Text;
  parse_private = some;
  sign = λ private claims. some (claims.audience ++ b'|' ∷ claims.subject);
  settings = record { token_ttl = 0; token_leeway = 0; token_no_nbf = false };
  verifies = λ kite_key public. true;
  kite_key = codes "key";
  issuer = codes "koding";
  picker = none;
  storage_get = λ q. ok (found_kite ∷ []);
}

abbrev at_start : Serving one_kite
at_start = record {
  keys = record {
    key_pair = some (record { id = (codes "1", own_key) ∷ []; public = [] });
    last_ids = [];
    last_public = [];
    last_private = [];
    self_key_pair = none;
  };
  tokens = [];
}

handle_get_token-one_kite :
    (handle_get_token one_kite (ok (by_name, false)) (codes "ann") 7 (some (codes "u")) at_start).1
    ≡ ok (codes "/devrim/prod/math|ann")
unfolding handle_get_token mem_get_key_from_id lookup text_beq generate_token expire get_audience
handle_get_token-one_kite = refl

leeway_below_ttl : leeway_of one_kite.settings ≤ ttl_of one_kite.settings
unfolding leeway_of ttl_of
leeway_below_ttl = omega arith

handle_get_kites-KitesAnswer_example :
    KitesAnswer one_kite 7 at_start
      (ok (found_kite ∷ []))
      (handle_get_kites one_kite (ok by_name) (codes "ann") 7 (λ kite. some (codes "u")) at_start)
handle_get_kites-KitesAnswer_example =
    handle_get_kites-KitesAnswer one_kite by_name (codes "ann") 7 (λ kite. some (codes "u"))
      at_start leeway_below_ttl tt

handle_get_token-TokenAnswer_example :
    TokenAnswer one_kite 7 at_start
      (ok (found_kite ∷ []))
      (handle_get_token one_kite (ok (by_name, true)) (codes "ann") 7 (some (codes "u")) at_start)
handle_get_token-TokenAnswer_example =
    handle_get_token-TokenAnswer one_kite by_name true (codes "ann") 7 (some (codes "u")) at_start
      leeway_below_ttl tt

-- The updater has waited too long just after a heartbeat has sent its ping.
abbrev late : Beats
late = record registered { ping = true; callback = pinged; closed = true; updaters = 0 }

late-Reaches : Reaches late
unfolding step
late-Reaches = next time_out (next send_ping start refl) refl

IsTended-Reaches_example : IsTended late
IsTended-Reaches_example = IsTended-Reaches late late-Reaches

tended_after_heartbeat_example :
    (step test_closed late ≡ some (restart late))
    × ((restart late).updaters ≡ 1)
    × ((restart late).writes ≡ (if late.closed then upsert ∷ late.writes else late.writes))
tended_after_heartbeat_example = tended_after_heartbeat late late-Reaches refl refl

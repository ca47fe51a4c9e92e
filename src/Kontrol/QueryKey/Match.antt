-- ===== src/Kontrol/QueryKey/Match.antt =====
-- The key of a query against the paths of the kites that it asks for.
use kite.Common.{
  Text, List, [], ◌∷◌, ◌++◌, map, append_assoc, append-nil, ◌≡◌, refl, sym, ap, ◌∙◌, ok, is_empty,
  true, arith, ◌⊎◌, inl, inr, some, Bool-cases, nat_eq, text_eq,
}
use kite.Protocol.{Kite, KontrolQuery, Field, slash, string, field, query}
use kite.Kontrol.QueryKey.{key_order, get_query_key}
use kite.Kontrol.QueryKey.Shape.{
  leading, path_of, query_values, value_of, key_spec, get_query_key-eq-spec,
}

-- Each field of the query is empty or is the kite's.
abbrev pub Matches : KontrolQuery → Kite → Type 0
Matches q k = (f : Field) → (is_empty (field q f) ≡ true) ⊎ (field q f ≡ field (query k) f)

-- `path` is the directory `key`, or lies below it.
pub data IsUnder (key path : Text) : Type 0 where
  same : path ≡ key → IsUnder key path
  below : (rest : Text) → path ≡ key ++ slash ∷ rest → IsUnder key path

pub string-path_of : (k : Kite) → string k ≡ path_of (query_values (query k))
unfolding string field query
string-path_of k = simp append-nil

leading-prefix :
    (q : KontrolQuery) (k : Kite)
    → Matches q k
    → (fs : List Field)
    → (ws : List Text) × (map (field (query k)) fs ≡ leading (map (field q) fs) ++ ws)
leading-prefix q k m [] = ([], refl)
leading-prefix q k m (f ∷ fs) = elim (Bool-cases (is_empty (field q f))) [
  | inl e ↦ (field (query k) f ∷ map (field (query k)) fs, rw e refl)
  | inr e ↦ let (ws, h) = leading-prefix q k m fs in (ws, rw e (ground (arith, h, m f)))
]

path_of-append : (vs ws : List Text) → path_of (vs ++ ws) ≡ path_of vs ++ path_of ws
path_of-append [] ws = refl
path_of-append (v ∷ vs) ws = simp (path_of-append vs, append_assoc)

IsUnder-append : (vs ws : List Text) → IsUnder (path_of vs) (path_of (vs ++ ws))
IsUnder-append vs [] = IsUnder.same (ap path_of (append-nil vs))
IsUnder-append vs (w ∷ ws) = IsUnder.below (w ++ path_of ws) (path_of-append vs (w ∷ ws))

key_of_spec :
    (q : KontrolQuery) (key : Text)
    → key_spec q ≡ some key
    → key ≡ path_of (leading (query_values q))
key_of_spec q key h = ground arith

-- A kite that matches a query is stored at the query's key or below it, if the query has a key.
pub get_query_key-IsUnder :
    (q : KontrolQuery) (k : Kite) (key : Text)
    → Matches q k
    → get_query_key q ≡ ok key
    → IsUnder key (string k)
get_query_key-IsUnder q k key m h =
    let (ws, e) = leading-prefix q k m key_order in
    let spec : key ≡ path_of (leading (query_values q)) =
      key_of_spec q key (sym (get_query_key-eq-spec q) ∙ ap value_of h) in
    let path : string k ≡ path_of (leading (query_values q) ++ ws) =
      string-path_of k ∙ ap path_of e in
    rw (spec, path) (IsUnder-append (leading (query_values q)) ws)

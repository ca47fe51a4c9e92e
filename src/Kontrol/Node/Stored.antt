-- ===== src/Kontrol/Node/Stored.antt =====
-- The key under which a kite is stored, read back from a node.
use kite.Common.{
  nat_eq, Text, codes, text_beq, text_eq, contains_byte, split, split-append, split_whole, ok, ◌≡◌,
  refl, false, List, [], ◌∷◌, ◌++◌,
}
use kite.Protocol.{Kite, Field, slash, string, field, query}
use kite.Kontrol.QueryKey.{validate_kite_key}
use kite.Kontrol.QueryKey.Validity.{CoversFields, IsGood-field}
use kite.Kontrol.Node.{kite_from_key}

-- `KitesPrefix` of kontrol/kontrol.go.
abbrev pub kites_prefix : Text
kites_prefix = codes "/kites"

split-string :
    (k : Kite)
    → ((f : Field) → contains_byte slash (field (query k) f) ≡ false)
    → split slash (codes "kites" ++ string k)
      ≡ codes "kites"
        ∷ k.username
        ∷ k.environment
        ∷ k.name
        ∷ k.version
        ∷ k.region
        ∷ k.hostname
        ∷ k.id
        ∷ []
unfolding string field query
split-string k h =
    rw
      (
        split-append slash (codes "kites") _ refl,
        split-append slash k.username _ (h Field.username),
        split-append slash k.environment _ (h Field.environment),
        split-append slash k.name _ (h Field.name),
        split-append slash k.version _ (h Field.version),
        split-append slash k.region _ (h Field.region),
        split-append slash k.hostname _ (h Field.hostname),
        split_whole slash k.id (h Field.id),
      )
      refl

-- A kite that `validateKiteKey` lets through is read back whole from the key that the storage
-- keeps it under.
pub kite_from_key-string :
    (order : List Field) (k : Kite)
    → CoversFields order
    → validate_kite_key order k ≡ ok tt
    → kite_from_key (kites_prefix ++ string k) ≡ ok k
unfolding kite_from_key text_beq
kite_from_key-string order k c h = rw (split-string k (λ f. (IsGood-field order c k h f).1)) refl

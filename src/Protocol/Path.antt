-- ===== src/Protocol/Path.antt =====
-- The path form of a kite, read back by `KiteFromString`.
use kite.Common.{
  nat_eq, Text, text_eq, contains_byte, split_n, split_n-append, ok, ◌≡◌, refl, false, [], ◌∷◌,
}
use kite.Protocol.{Kite, slash, string, kite_from_string}

abbrev pub NoSlash : Text → Type 0
NoSlash s = contains_byte slash s ≡ false

-- The first six fields hold no slash: what `KiteFromString` needs to find them again.
pub record IsSplittable (k : Kite) : Type 0 where
  pub username : NoSlash k.username
  pub environment : NoSlash k.environment
  pub name : NoSlash k.name
  pub version : NoSlash k.version
  pub region : NoSlash k.region
  pub hostname : NoSlash k.hostname

split_n_whole : (s : Text) → split_n slash 0 s ≡ s ∷ []
unfolding split_n
split_n_whole s = refl

-- A kite whose fields other than the id hold no slash is read back whole from its path form; the
-- id may hold slashes, and every field may be empty.
pub kite_from_string-string : (k : Kite) → IsSplittable k → kite_from_string (string k) ≡ ok k
unfolding kite_from_string string
kite_from_string-string k h =
    rw
      (
        split_n-append slash 5 k.username _ h.username,
        split_n-append slash 4 k.environment _ h.environment,
        split_n-append slash 3 k.name _ h.name,
        split_n-append slash 2 k.version _ h.version,
        split_n-append slash 1 k.region _ h.region,
        split_n-append slash 0 k.hostname _ h.hostname,
        split_n_whole k.id,
      )
      refl

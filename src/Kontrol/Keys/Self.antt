-- ===== src/Kontrol/Keys/Self.antt =====
-- The key pair that Kontrol takes for its own.
use kite.Common.{
  length, Bool-cases, nat_eq, Text, text_eq, is_empty, part, Result, ok, err, ℕ, zero, suc, ◌<◌,
  ◌≡◌, refl, ◌∙◌, ◌⊎◌, inl, inr, Bool, true, false, Option, none, some, List, arith,
}
use kite.Kontrol.KeyPair.{KeyPair, KeyPairStorage}
use kite.Kontrol.Keys.{
  KeysError, no_matching_key_pair, last_verifying, Keys, delete_key_pair, at_index, found_self,
  self_pair,
}

module _ (v : Text → Bool) (ps : List Text) where
  -- What the loop of `KeyPair` finds below `n`: the last index that passes, or that none does.
  abbrev pub LastBelow : ℕ → Option ℕ → Type 0
  LastBelow n none = (j : ℕ) → j < n → v (part ps j) ≡ false
  LastBelow n (some i) =
      (i < n) × (v (part ps i) ≡ true) × ((j : ℕ) → i < j → j < n → v (part ps j) ≡ false)

  lt_suc_cases : (j n : ℕ) → j < suc n → (j < n) ⊎ (j ≡ n)
  lt_suc_cases j n h = omega arith

  extend : (n : ℕ) (o : Option ℕ) → v (part ps n) ≡ false → LastBelow n o → LastBelow (suc n) o
  extend n none e h = λ j hj. elim (lt_suc_cases j n hj) [ inl lt ↦ h j lt | inr eq ↦ rw eq e ]
  extend n (some i) e (lt, yes_i, rest) = (
    omega arith,
    yes_i,
    λ j ij hj. elim (lt_suc_cases j n hj) [ inl l ↦ rest j ij l | inr eq ↦ rw eq e ],
  )

  LastBelow-last_verifying : (n : ℕ) → LastBelow n (last_verifying v ps n)
  unfolding last_verifying
  LastBelow-last_verifying zero = λ j h. absurd (omega arith)
  LastBelow-last_verifying (suc n) = elim (Bool-cases (v (part ps n))) [
    | inl e ↦ rw (e, last_verifying) (omega arith, e, λ j ij hj. absurd (omega arith))
    | inr e ↦
        rw (e, last_verifying) (extend n (last_verifying v ps n) e (LastBelow-last_verifying n))
  ]

module _ (st : KeyPairStorage) (fresh : st.State) (verifies : Text → Text → Bool) where
  -- What `KeyPair` answers, by the index that its loop found.
  abbrev pub Answer :
      Text → Keys st fresh → Option ℕ → Keys st fresh × Result KeysError KeyPair → Type 0
  Answer kite_key k none r = (r.0 ≡ k) × (r.1 ≡ err no_matching_key_pair)
  Answer kite_key k (some i) r =
      (r.1 ≡ ok (at_index st fresh k i)) × (r.0.self_key_pair ≡ some (at_index st fresh k i))

  Answer-found_self :
      (kite_key : Text) (k : Keys st fresh) (o : Option ℕ)
      → Answer kite_key k o (found_self st fresh k o)
  Answer-found_self kite_key k none = (refl, refl)
  Answer-found_self kite_key k (some i) = (refl, refl)

  self_pair_scan :
      (kite_key : Text) (k : Keys st fresh)
      → k.self_key_pair ≡ none
      → is_empty kite_key ≡ false
      → 0 < length k.last_public
      → self_pair st fresh verifies kite_key k
        ≡ found_self st fresh k
            (last_verifying (verifies kite_key) k.last_public (length k.last_public))
  unfolding self_pair
  self_pair_scan kite_key k e set some_public = ground arith

  -- With no pair remembered, `KeyPair` of a Kontrol that has a kite key and a public key takes the
  -- pair that was added last among those whose public key verifies the kite key, and remembers it; it
  -- fails, and changes nothing, if no public key does.
  pub self_pair-LastBelow :
      (kite_key : Text) (k : Keys st fresh)
      → k.self_key_pair ≡ none
      → is_empty kite_key ≡ false
      → 0 < length k.last_public
      → (o : Option ℕ) × LastBelow (verifies kite_key) k.last_public (length k.last_public) o
        × Answer kite_key k o (self_pair st fresh verifies kite_key k)
  self_pair-LastBelow kite_key k e set some_public =
      let o = last_verifying (verifies kite_key) k.last_public (length k.last_public) in
      (
        o,
        LastBelow-last_verifying (verifies kite_key) k.last_public (length k.last_public),
        rw (self_pair_scan kite_key k e set some_public) (Answer-found_self kite_key k o),
      )

  self_key_pair-delete_key_pair :
      (id public : Text) (k : Keys st fresh)
      → (delete_key_pair st fresh id public k).0.self_key_pair ≡ k.self_key_pair
  unfolding delete_key_pair
  self_key_pair-delete_key_pair id public k = ground arith

  self_pair_remembers :
      (kite_key : Text) (k : Keys st fresh) (p : KeyPair)
      → (self_pair st fresh verifies kite_key k).1 ≡ ok p
      → (self_pair st fresh verifies kite_key k).0.self_key_pair ≡ some p
  unfolding self_pair
  self_pair_remembers kite_key k p h = ground arith

  self_pair_known :
      (kite_key : Text) (k : Keys st fresh) (p : KeyPair)
      → k.self_key_pair ≡ some p
      → (self_pair st fresh verifies kite_key k).1 ≡ ok p
  unfolding self_pair
  self_pair_known kite_key k p h = ground arith

  -- Once `KeyPair` has answered with a pair, it answers with the same pair after `DeleteKeyPair` of
  -- any id or public key, that of the pair itself included, and whatever the kite key is by then.
  pub self_pair-delete_key_pair :
      (kite_key : Text) (k : Keys st fresh) (p : KeyPair) (id public later_key : Text)
      → (self_pair st fresh verifies kite_key k).1 ≡ ok p
      → let t = (delete_key_pair st fresh id public (self_pair st fresh verifies kite_key k).0).0 in
        (self_pair st fresh verifies later_key t).1 ≡ ok p
  self_pair-delete_key_pair kite_key k p id public later_key h = self_pair_known later_key _ p (
      self_key_pair-delete_key_pair id public (self_pair st fresh verifies kite_key k).0
      ∙ self_pair_remembers kite_key k p h)

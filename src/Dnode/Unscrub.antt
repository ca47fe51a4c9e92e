-- ===== src/Dnode/Unscrub.antt =====
-- dnode/unscrub.go: `setCallback`, which puts a callback of the other side into a decoded value.
pub mod Reached
use kite.Common.{
  ltb, leb, nat_beq, if◌then◌else◌, nat_beq_iff, Bool-cases, Option-cases, Result-cases, Eq, ◌==◌,
  ==_iff, ==_refl, nat_eq, Text, codes, text_beq, text_beq_iff, text_eq, is_empty, contains_byte,
  has_prefix, has_prefix-append, trim_space, contains_text, count_byte, cut_at, split_n, split,
  part, cut_at_here, cut_at-append, cut_at-none, split_n-append, split-append, split_whole,
  count_byte-append, count_byte_zero, count_byte_none, count_byte_here, Result, ok, err, ◌>>=◌,
  ◌>>◌, ℕ, zero, suc, ◌+◌, ◌-◌, ◌*◌, ◌/◌, ◌%◌, ◌^◌, ◌≤◌, ◌<◌, ◌≡◌, refl, sym, ap, ◌∙◌, ◌≢◌, ◌↔◌,
  ◌⊎◌, inl, inr, Bool, true, false, ◌&&◌, ◌||◌, not, Option, none, some, List, [], ◌∷◌, ◌++◌, map,
  append_assoc, append-nil, arith,
}

-- A component of a received path: a string, a number as the index that Go makes of it, where a
-- negative one is none, or another value of JSON.
pub data Part : Type 0 where
  text_part : Text → Part
  number_part : Option ℕ → Part
  other_part : Part

-- A decoded value by its kind. A map tells whether its elements are of an interface type, and holds
-- them by key; a struct holds its fields by name.
mutual
  pub data Target : Type 0 where
    nil_pointer nil_interface function partial func_value other_value : Target
    pointer_to interface_to : Target → Target
    slice : Targets → Target
    map_of : Bool → NamedTargets → Target
    struct : NamedTargets → Target

  pub data Targets : Type 0 where
    no_targets : Targets
    target : Target → Targets → Targets

  pub data NamedTargets : Type 0 where
    no_named : NamedTargets
    named : Text → Target → NamedTargets → NamedTargets

-- What comes of a path: the callback is set, or it is handed on to a dnode.Partial with the rest of
-- the path; the value has no such place; the path does not fit and an error is returned; or a panic.
pub data Placed : Type 0 where
  is_set no_place refused panics : Placed
  handed_on : List Part → Placed

-- strings.ToUpper(name[0:1]) + name[1:] of ASCII text; the empty name has no first byte.
unfoldable pub upper_first : Text → Option Text
upper_first [] = none
upper_first (c ∷ s) = some ((if leb b'a' c && leb c b'z' then c - 32 else c) ∷ s)

abbrev pub if_settable : Bool → Placed
if_settable true = is_set
if_settable false = panics

abbrev pub addressed : Bool → Placed → Placed
addressed true p = p
addressed false p = panics

-- strconv.Atoi: an integer, where a negative one is none.
module _ (atoi : Text → Result Text (Option ℕ)) where
  -- The index that a component gives; none stands for a negative one.
  pub data Index : Type 0 where
    index : ℕ → Index
    bad_index not_integer : Index

  abbrev pub of_integer : Option ℕ → Index
  of_integer none = bad_index
  of_integer (some n) = index n

  abbrev pub of_atoi : Result Text (Option ℕ) → Index
  of_atoi (err e) = not_integer
  of_atoi (ok n) = of_integer n

  abbrev pub index_of : Part → Index
  index_of (text_part s) = of_atoi (atoi s)
  index_of (number_part n) = of_integer n
  index_of other_part = bad_index

  abbrev pub at_index : Index → (ℕ → Placed) → Placed
  at_index (index n) k = k n
  at_index bad_index k = panics
  at_index not_integer k = refused

  abbrev pub at_field : Option Text → (Text → Placed) → Placed
  at_field none k = panics
  at_field (some name) k = k name

  -- `setCallback`; the flag tells whether the value is addressable, as reflection needs it to set it.
  unfoldable mutual
    unfolding upper_first

    pub set_callback : Target → Bool → List Part → Placed
    set_callback nil_pointer settable path = no_place
    set_callback (pointer_to v) settable path = set_callback v true path
    set_callback nil_interface settable [] = if_settable settable
    set_callback nil_interface settable (p ∷ path) = no_place
    set_callback (interface_to v) settable [] = if_settable settable
    set_callback (interface_to v) settable (p ∷ path) = set_callback v false (p ∷ path)
    set_callback function settable path = if_settable settable
    set_callback partial settable path = addressed settable (handed_on path)
    set_callback func_value settable path = no_place
    set_callback other_value settable path = refused
    set_callback (slice vs) settable [] = refused
    set_callback (slice vs) settable (p ∷ path) = at_index (index_of p) λ n. set_nth vs n path
    set_callback (map_of any es) settable [] = refused
    set_callback (map_of true es) settable (text_part key ∷ []) = is_set
    set_callback (map_of false es) settable (text_part key ∷ []) = set_named es false key []
    set_callback (map_of any es) settable (text_part key ∷ p ∷ path) =
        set_named es false key (p ∷ path)
    set_callback (map_of any es) settable (number_part n ∷ path) = panics
    set_callback (map_of any es) settable (other_part ∷ path) = panics
    set_callback (struct fs) settable [] = panics
    set_callback (struct fs) settable (text_part name ∷ path) =
        addressed settable (at_field (upper_first name) λ field. set_named fs settable field path)
    set_callback (struct fs) settable (number_part n ∷ path) = addressed settable refused
    set_callback (struct fs) settable (other_part ∷ path) = addressed settable refused

    -- value.Index(index); the elements of a slice are addressable.
    pub set_nth : Targets → ℕ → List Part → Placed
    set_nth no_targets n path = panics
    set_nth (target v vs) zero path = set_callback v true path
    set_nth (target v vs) (suc n) path = set_nth vs n path

    -- value.MapIndex and value.FieldByName; a missing one is skipped.
    pub set_named : NamedTargets → Bool → Text → List Part → Placed
    set_named no_named settable name path = no_place
    set_named (named k v rest) settable name path =
        let below = set_named rest settable name path in
        if text_beq k name then set_callback v settable path else below

-- ===== src/Dnode/Scrub.antt =====
-- dnode/scrub.go: the callbacks that are found in the arguments of a message, each with its path.
-- The proofs are in the module below.
pub mod Numbered
pub mod Paths
use kite.Common.{
  ltb, leb, nat_beq, if◌then◌else◌, nat_beq_iff, Bool-cases, Option-cases, Result-cases, Eq, ◌==◌,
  ==_iff, ==_refl, nat_eq, Text, codes, text_beq, text_beq_iff, text_eq, is_empty, contains_byte,
  has_prefix, has_prefix-append, trim_space, contains_text, count_byte, cut_at, split_n, split,
  part, cut_at_here, cut_at-append, cut_at-none, split_n-append, split-append, split_whole,
  count_byte-append, count_byte_zero, count_byte_none, count_byte_here, Result, ok, err, ◌>>=◌,
  ◌>>◌, ℕ, zero, suc, ◌+◌, ◌-◌, ◌*◌, ◌/◌, ◌%◌, ◌^◌, ◌≤◌, ◌<◌, ◌≡◌, refl, sym, ap, ◌∙◌, ◌≢◌, ◌↔◌,
  ◌⊎◌, inl, inr, Bool, true, false, ◌&&◌, ◌||◌, not, Option, none, some, List, [], ◌∷◌, ◌++◌, map,
  append_assoc, append-nil, arith,
}
use kite.Common.Dict.{Dict, insert}
use kite.Dnode.Callbacks.{Scrubber, register}

-- A component of a callback's path. Go keeps an index of a slice apart from a name, both being
-- values of an interface type.
pub data Component : Type 0 where
  at_index : ℕ → Component
  at_name : Text → Component

abbrev pub CallbackPath : Type 0
CallbackPath = List Component

-- What reflection tells of a field of a struct.
pub record FieldInfo : Type 0 where
  pub name : Text
  pub json_tag : Text
  pub dnode_tag : Text
  pub exported : Bool
  pub anonymous : Bool

-- A Go value as `collect` sees it. A struct comes with its exported methods of type func(*Partial),
-- those of the value and those of a pointer to it; `function` is a dnode.Function with the callback
-- that it wraps, if any; `bare_func` is a func that is not wrapped.
mutual
  pub data Value (F : Type 0) : Type 0 where
    plain nil_interface nil_pointer bare_func : Value F
    interface_to pointer_to : Value F → Value F
    slice : Elements F → Value F
    map_of : Entries F → Value F
    struct : Fields F → List (Text × F) → List (Text × F) → Value F
    function : Option F → Value F

  pub data Elements (F : Type 0) : Type 0 where
    no_elements : Elements F
    element : Value F → Elements F → Elements F

  pub data Entries (F : Type 0) : Type 0 where
    no_entries : Entries F
    entry : Text → Value F → Entries F → Entries F

  pub data Fields (F : Type 0) : Type 0 where
    no_fields : Fields F
    field : FieldInfo → Value F → Fields F → Fields F

-- The part of a tag before its first comma.
unfoldable pub before_comma : Text → Text
before_comma [] = []
before_comma (c ∷ s) = let rest = before_comma s in if nat_beq c b',' then [] else c ∷ rest

-- strings.ToLower of an ASCII character.
unfoldable pub lower : ℕ → ℕ
lower c = if leb b'A' c && leb c b'Z' then c + 32 else c

-- strings.ToLower(name[0:1]) + name[1:]; a method's name is not empty.
unfoldable pub lower_first : Text → Text
unfolding lower
lower_first [] = []
lower_first (c ∷ s) = lower c ∷ s

-- Whether `fields` passes a field over.
unfoldable pub skipped : FieldInfo → Bool
unfolding before_comma
skipped i =
    (not i.exported && not i.anonymous)
    || (before_comma i.json_tag == codes "-" || i.dnode_tag == codes "-")

-- The path of a field, from that of its struct.
unfoldable pub field_path : FieldInfo → CallbackPath → CallbackPath
unfolding before_comma
field_path i path =
    if i.anonymous
    then path
    else path
      ++ at_name (if is_empty (before_comma i.json_tag) then i.name else before_comma i.json_tag)
        ∷ []

module _ (F : Type 0) where
  -- The table of the scrubber and the map of paths that goes into the message.
  abbrev pub Sent : Type 0
  Sent = Scrubber F × Dict ℕ CallbackPath

  abbrev pub entered : CallbackPath → Dict ℕ CallbackPath → Scrubber F × Option ℕ → Sent
  entered path paths (s, none) = (s, paths)
  entered path paths (s, some id) = (s, insert id path paths)

  -- `register` with the entry of the path.
  unfoldable pub enter : Option F → CallbackPath → Sent → Sent
  unfolding register
  enter f path (s, paths) = entered path paths (register F f s)

  -- `methods`
  unfoldable pub methods : List (Text × F) → CallbackPath → Sent → Sent
  unfolding enter lower_first
  methods [] path sent = sent
  methods ((name, f) ∷ rest) path sent =
      methods rest path (enter (some f) (path ++ at_name (lower_first name) ∷ []) sent)

  abbrev pub then_methods : List (Text × F) → CallbackPath → Option Sent → Option Sent
  then_methods ms path none = none
  then_methods ms path (some sent) = some (methods ms path sent)

  abbrev pub and_then : Option Sent → (Sent → Option Sent) → Option Sent
  and_then none f = none
  and_then (some sent) f = f sent

  -- `collect` and `fields`, with the loops over elements, entries and fields; none is a panic.
  unfoldable mutual
    unfolding enter methods skipped field_path

    pub collect : Value F → CallbackPath → Sent → Option Sent
    collect plain path sent = some sent
    collect nil_interface path sent = some sent
    collect nil_pointer path sent = some sent
    collect bare_func path sent = none
    collect (interface_to v) path sent = collect v path sent
    collect (pointer_to v) path sent = collect_target v path sent
    collect (slice vs) path sent = collect_elements vs 0 path sent
    collect (map_of es) path sent = collect_entries es path sent
    collect (struct fs own by_pointer) path sent =
        then_methods own path (collect_fields fs path sent)
    collect (function f) path sent = some (enter f path sent)

    -- What a pointer points to. A dnode.Function is a struct like any other here, and its field is
    -- a func.
    pub collect_target : Value F → CallbackPath → Sent → Option Sent
    collect_target (struct fs own by_pointer) path sent =
        then_methods by_pointer path (collect_fields fs path sent)
    collect_target (function none) path sent = some sent
    collect_target (function (some f)) path sent = none
    collect_target plain path sent = some sent
    collect_target nil_interface path sent = some sent
    collect_target nil_pointer path sent = some sent
    collect_target bare_func path sent = none
    collect_target (interface_to v) path sent = collect v path sent
    collect_target (pointer_to v) path sent = collect_target v path sent
    collect_target (slice vs) path sent = collect_elements vs 0 path sent
    collect_target (map_of es) path sent = collect_entries es path sent

    pub collect_elements : Elements F → ℕ → CallbackPath → Sent → Option Sent
    collect_elements no_elements i path sent = some sent
    collect_elements (element v vs) i path sent =
        and_then (collect v (path ++ at_index i ∷ []) sent) (collect_elements vs (i + 1) path)

    pub collect_entries : Entries F → CallbackPath → Sent → Option Sent
    collect_entries no_entries path sent = some sent
    collect_entries (entry k v es) path sent =
        and_then (collect v (path ++ at_name k ∷ []) sent) (collect_entries es path)

    pub collect_fields : Fields F → CallbackPath → Sent → Option Sent
    collect_fields no_fields path sent = some sent
    collect_fields (field i v fs) path sent =
        let rest = and_then (collect v (field_path i path) sent) (collect_fields fs path) in
        if skipped i then collect_fields fs path sent else rest

  -- `Scrub`: nil for a value that is no array, slice, struct or map.
  unfoldable pub scrub : Value F → Scrubber F → Option Sent
  unfolding collect
  scrub (slice vs) s = collect (slice vs) [] (s, [])
  scrub (map_of es) s = collect (map_of es) [] (s, [])
  scrub (struct fs own by_pointer) s = collect (struct fs own by_pointer) [] (s, [])
  scrub (function f) s = collect (function f) [] (s, [])
  scrub v s = some (s, [])

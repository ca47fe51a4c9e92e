-- ===== src/Dnode/Scrub/Paths.antt =====
-- The paths of the callbacks in the arguments of a message: all begin with an index.
use kite.Common.{
  if◌then◌else◌, nat_eq, Text, text_eq, ℕ, ◌+◌, ◌≡◌, refl, sym, ap, ◌∙◌, Bool, true, false, ◌&&◌,
  Option, none, some, List, [], ◌∷◌, ◌++◌, arith,
}
use kite.Common.Dict.{Dict, insert}
use kite.Dnode.Callbacks.{Scrubber, register}
use kite.Dnode.Scrub.{
  collect, at_index, at_name, CallbackPath, FieldInfo, Value, Elements, Entries, Fields, plain,
  nil_interface, nil_pointer, bare_func, interface_to, pointer_to, slice, map_of, struct, function,
  no_elements, element, no_entries, entry, no_fields, field, lower_first, skipped, field_path, Sent,
  enter, scrub,
}
use kite.Dnode.Scrub.Numbered.{
  collect-enter_found, Found, functions, functions_behind, functions_in, functions_under,
  functions_of, both, methods_in, enter_all, enter_found,
}

abbrev pub is_indexed : CallbackPath → Bool
is_indexed [] = false
is_indexed (at_name n ∷ path) = false
is_indexed (at_index i ∷ path) = true

is_indexed-append :
    (path rest : CallbackPath) → is_indexed path ≡ true → is_indexed (path ++ rest) ≡ true
is_indexed-append [] rest h = absurd (cc)
is_indexed-append (at_name n ∷ path) rest h = absurd (cc)
is_indexed-append (at_index i ∷ path) rest h = refl

is_indexed-field_path :
    (i : FieldInfo) (path : CallbackPath)
    → is_indexed path ≡ true
    → is_indexed (field_path i path) ≡ true
unfolding field_path
is_indexed-field_path i path h = by_flag i.anonymous _
  where
    by_flag :
        (b : Bool) (name : Text) → is_indexed (if b then path else path ++ at_name name ∷ []) ≡ true
    by_flag true name = h
    by_flag false name = is_indexed-append path _ h

module _ (F : Type 0) where
  abbrev all_indexed : Option (Found F) → Bool
  all_indexed none = true
  all_indexed (some []) = true
  all_indexed (some ((path, f) ∷ fs)) = is_indexed path && all_indexed (some fs)

  -- The paths of a message's map.
  abbrev pub indexed_paths : Dict ℕ CallbackPath → Bool
  indexed_paths [] = true
  indexed_paths ((id, path) ∷ rest) = is_indexed path && indexed_paths rest

  all_indexed-both :
      (a b : Option (Found F))
      → all_indexed a ≡ true
      → all_indexed b ≡ true
      → all_indexed (both F a b) ≡ true
  all_indexed-both none b x y = refl
  all_indexed-both (some fs) none x y = refl
  all_indexed-both (some []) (some gs) x y = y
  all_indexed-both (some ((path, f) ∷ fs)) (some gs) x y =
      let tail : all_indexed (some fs) ≡ true = ground arith in
      let rest = all_indexed-both (some fs) (some gs) tail y in ground arith

  all_indexed-methods_in :
      (ms : List (Text × F)) (path : CallbackPath)
      → is_indexed path ≡ true
      → all_indexed (some (methods_in F ms path)) ≡ true
  all_indexed-methods_in [] path h = refl
  all_indexed-methods_in ((name, f) ∷ rest) path h =
      let below = all_indexed-methods_in rest path h in
      let here = is_indexed-append path (at_name (lower_first name) ∷ []) h in ground arith

  all_indexed-if :
      (b : Bool) (here rest : Option (Found F))
      → all_indexed rest ≡ true
      → all_indexed here ≡ true
      → all_indexed (if b then rest else both F here rest) ≡ true
  all_indexed-if true here rest h g = h
  all_indexed-if false here rest h g = all_indexed-both here rest g h

  indexed_paths-insert :
      (id : ℕ) (path : CallbackPath) (paths : Dict ℕ CallbackPath)
      → is_indexed path ≡ true
      → indexed_paths paths ≡ true
      → indexed_paths (insert id path paths) ≡ true
  unfolding insert
  indexed_paths-insert id path [] h g = ground arith
  indexed_paths-insert id path ((k, held) ∷ rest) h g =
      let tail : indexed_paths rest ≡ true = ground arith in
      let below = indexed_paths-insert id path rest h tail in ground arith

  mutual
    unfolding functions

    all_indexed-functions :
        (v : Value F) (path : CallbackPath)
        → is_indexed path ≡ true
        → all_indexed (functions F v path) ≡ true
    all_indexed-functions plain path h = refl
    all_indexed-functions nil_interface path h = refl
    all_indexed-functions nil_pointer path h = refl
    all_indexed-functions bare_func path h = refl
    all_indexed-functions (interface_to v) path h = all_indexed-functions v path h
    all_indexed-functions (pointer_to v) path h = all_indexed-functions_behind v path h
    all_indexed-functions (slice vs) path h =
        all_indexed-functions_in vs 0 path λ i. is_indexed-append path (at_index i ∷ []) h
    all_indexed-functions (map_of es) path h = all_indexed-functions_under es path h
    all_indexed-functions (struct fs own by_pointer) path h =
        all_indexed-both (functions_of F fs path) (some (methods_in F own path))
          (all_indexed-functions_of fs path h) (all_indexed-methods_in own path h)
    all_indexed-functions (function none) path h = refl
    all_indexed-functions (function (some f)) path h = ground arith

    all_indexed-functions_behind :
        (v : Value F) (path : CallbackPath)
        → is_indexed path ≡ true
        → all_indexed (functions_behind F v path) ≡ true
    all_indexed-functions_behind plain path h = refl
    all_indexed-functions_behind nil_interface path h = refl
    all_indexed-functions_behind nil_pointer path h = refl
    all_indexed-functions_behind bare_func path h = refl
    all_indexed-functions_behind (interface_to v) path h = all_indexed-functions v path h
    all_indexed-functions_behind (pointer_to v) path h = all_indexed-functions_behind v path h
    all_indexed-functions_behind (slice vs) path h =
        all_indexed-functions_in vs 0 path λ i. is_indexed-append path (at_index i ∷ []) h
    all_indexed-functions_behind (map_of es) path h = all_indexed-functions_under es path h
    all_indexed-functions_behind (struct fs own by_pointer) path h =
        all_indexed-both (functions_of F fs path) (some (methods_in F by_pointer path))
          (all_indexed-functions_of fs path h) (all_indexed-methods_in by_pointer path h)
    all_indexed-functions_behind (function none) path h = refl
    all_indexed-functions_behind (function (some f)) path h = refl

    -- The elements of a slice are indexed whatever path the slice is at.
    all_indexed-functions_in :
        (vs : Elements F) (i : ℕ) (path : CallbackPath)
        → ((i : ℕ) → is_indexed (path ++ at_index i ∷ []) ≡ true)
        → all_indexed (functions_in F vs i path) ≡ true
    all_indexed-functions_in no_elements i path h = refl
    all_indexed-functions_in (element v vs) i path h =
        all_indexed-both (functions F v (path ++ at_index i ∷ [])) (functions_in F vs (i + 1) path)
          (all_indexed-functions v (path ++ at_index i ∷ []) (h i))
          (all_indexed-functions_in vs (i + 1) path h)

    all_indexed-functions_under :
        (es : Entries F) (path : CallbackPath)
        → is_indexed path ≡ true
        → all_indexed (functions_under F es path) ≡ true
    all_indexed-functions_under no_entries path h = refl
    all_indexed-functions_under (entry k v es) path h =
        all_indexed-both (functions F v (path ++ at_name k ∷ [])) (functions_under F es path)
          (all_indexed-functions v (path ++ at_name k ∷ [])
            (is_indexed-append path (at_name k ∷ []) h))
          (all_indexed-functions_under es path h)

    all_indexed-functions_of :
        (fs : Fields F) (path : CallbackPath)
        → is_indexed path ≡ true
        → all_indexed (functions_of F fs path) ≡ true
    all_indexed-functions_of no_fields path h = refl
    all_indexed-functions_of (field i v fs) path h =
        all_indexed-if (skipped i) (functions F v (field_path i path)) (functions_of F fs path)
          (all_indexed-functions_of fs path h)
          (all_indexed-functions v (field_path i path) (is_indexed-field_path i path h))

  all_indexed-enter_all :
      (fs : Found F) (s : Scrubber F) (paths : Dict ℕ CallbackPath)
      → all_indexed (some fs) ≡ true
      → indexed_paths paths ≡ true
      → indexed_paths (enter_all F fs (s, paths)).1 ≡ true
  unfolding enter register
  all_indexed-enter_all [] s paths h g = g
  all_indexed-enter_all ((path, f) ∷ fs) s paths h g =
      let tail : all_indexed (some fs) ≡ true = ground arith in
      let here : is_indexed path ≡ true = ground arith in
      all_indexed-enter_all fs (register F (some f) s).0 (insert s.seq path paths) tail
        (indexed_paths-insert s.seq path paths here g)

  -- Every path that is sent with the callbacks of a slice begins with an index.
  pub scrub-indexed_paths :
      (vs : Elements F) (s : Scrubber F) (sent : Sent F)
      → scrub F (slice vs) s ≡ some sent
      → indexed_paths sent.1 ≡ true
  unfolding scrub collect functions
  scrub-indexed_paths vs s sent done =
      of_found (functions_in F vs 0 []) (all_indexed-functions_in vs 0 [] λ i. refl)
        (sym (collect-enter_found F (slice vs) [] (s, [])) ∙ done)
    where
      of_sent : Option (Sent F) → Bool
      of_sent none = true
      of_sent (some sent) = indexed_paths sent.1

      of_found :
          (fs : Option (Found F))
          → all_indexed fs ≡ true
          → enter_found F fs (s, []) ≡ some sent
          → indexed_paths sent.1 ≡ true
      of_found none h e = absurd (cc)
      of_found (some fs) h e = ap (λ o. of_sent o) (sym e) ∙ all_indexed-enter_all fs s [] h refl

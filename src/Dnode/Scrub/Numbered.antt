-- ===== src/Dnode/Scrub/Numbered.antt =====
-- The callbacks of a message: listed by their paths, and numbered in that order.
use mathlib.Core.Path.{subst}
use kite.Common.{
  ltb, if◌then◌else◌, Bool-cases, nat_eq, Text, text_eq, ℕ, zero, suc, ◌+◌, ◌%◌, ◌^◌, ◌≤◌, ◌<◌, ◌≡◌,
  refl, sym, ap, ◌∙◌, ◌⊎◌, inl, inr, Bool, true, false, Option, none, some, List, [], ◌∷◌, ◌++◌,
  arith,
}
use kite.Common.Dict.{Dict, lookup, insert, lookup-insert}
use kite.Dnode.Callbacks.{Scrubber, register, get_callback}
use kite.Dnode.Scrub.{
  scrub, at_index, at_name, CallbackPath, Value, Elements, Entries, Fields, plain, nil_interface,
  nil_pointer, bare_func, interface_to, pointer_to, slice, map_of, struct, function, no_elements,
  element, no_entries, entry, no_fields, field, lower_first, skipped, field_path, Sent, enter,
  methods, then_methods, and_then, collect, collect_target, collect_elements, collect_entries,
  collect_fields,
}

module _ (F : Type 0) where
  -- A callback with its path.
  abbrev pub Found : Type 0
  Found = List (CallbackPath × F)

  abbrev pub both : Option Found → Option Found → Option Found
  both none r = none
  both (some fs) none = none
  both (some fs) (some gs) = some (fs ++ gs)

  abbrev pub methods_in : List (Text × F) → CallbackPath → Found
  methods_in [] path = []
  methods_in ((name, f) ∷ rest) path =
      (path ++ at_name (lower_first name) ∷ [], f) ∷ methods_in rest path

  -- All callbacks in a value that stands at a path, fields before methods; none if there is a func
  -- that is not wrapped.
  unfoldable mutual
    pub functions : Value F → CallbackPath → Option Found
    functions plain path = some []
    functions nil_interface path = some []
    functions nil_pointer path = some []
    functions bare_func path = none
    functions (interface_to v) path = functions v path
    functions (pointer_to v) path = functions_behind v path
    functions (slice vs) path = functions_in vs 0 path
    functions (map_of es) path = functions_under es path
    functions (struct fs own by_pointer) path =
        both (functions_of fs path) (some (methods_in own path))
    functions (function none) path = some []
    functions (function (some f)) path = some ((path, f) ∷ [])

    pub functions_behind : Value F → CallbackPath → Option Found
    functions_behind (struct fs own by_pointer) path =
        both (functions_of fs path) (some (methods_in by_pointer path))
    functions_behind (function none) path = some []
    functions_behind (function (some f)) path = none
    functions_behind plain path = some []
    functions_behind nil_interface path = some []
    functions_behind nil_pointer path = some []
    functions_behind bare_func path = none
    functions_behind (interface_to v) path = functions v path
    functions_behind (pointer_to v) path = functions_behind v path
    functions_behind (slice vs) path = functions_in vs 0 path
    functions_behind (map_of es) path = functions_under es path

    pub functions_in : Elements F → ℕ → CallbackPath → Option Found
    functions_in no_elements i path = some []
    functions_in (element v vs) i path =
        both (functions v (path ++ at_index i ∷ [])) (functions_in vs (i + 1) path)

    pub functions_under : Entries F → CallbackPath → Option Found
    functions_under no_entries path = some []
    functions_under (entry k v es) path =
        both (functions v (path ++ at_name k ∷ [])) (functions_under es path)

    pub functions_of : Fields F → CallbackPath → Option Found
    functions_of no_fields path = some []
    functions_of (field i v fs) path =
        let rest = functions_of fs path in
        let here = functions v (field_path i path) in if skipped i then rest else both here rest

  abbrev pub enter_all : Found → Sent F → Sent F
  enter_all [] sent = sent
  enter_all ((path, f) ∷ fs) sent = enter_all fs (enter F (some f) path sent)

  abbrev pub enter_found : Option Found → Sent F → Option (Sent F)
  enter_found none sent = none
  enter_found (some fs) sent = some (enter_all fs sent)

  enter_all-append :
      (fs gs : Found) (sent : Sent F) → enter_all (fs ++ gs) sent ≡ enter_all gs (enter_all fs sent)
  enter_all-append [] gs sent = refl
  enter_all-append ((path, f) ∷ fs) gs sent = enter_all-append fs gs (enter F (some f) path sent)

  enter_found-both :
      (a b : Option Found) (k : Sent F → Option (Sent F)) (sent : Sent F)
      → ((sent : Sent F) → k sent ≡ enter_found b sent)
      → and_then F (enter_found a sent) k ≡ enter_found (both a b) sent
  enter_found-both none b k sent h = refl
  enter_found-both (some fs) none k sent h = h (enter_all fs sent)
  enter_found-both (some fs) (some gs) k sent h =
      h (enter_all fs sent) ∙ ap some (sym (enter_all-append fs gs sent))

  methods-enter_all :
      (ms : List (Text × F)) (path : CallbackPath) (sent : Sent F)
      → methods F ms path sent ≡ enter_all (methods_in ms path) sent
  unfolding methods
  methods-enter_all [] path sent = refl
  methods-enter_all ((name, f) ∷ rest) path sent = methods-enter_all rest path _

  then_methods-both :
      (a : Option Found) (ms : List (Text × F)) (path : CallbackPath) (sent : Sent F)
      → then_methods F ms path (enter_found a sent)
        ≡ enter_found (both a (some (methods_in ms path))) sent
  then_methods-both none ms path sent = refl
  then_methods-both (some fs) ms path sent = ap some (
      methods-enter_all ms path (enter_all fs sent)
      ∙ sym (enter_all-append fs (methods_in ms path) sent))

  enter_found-if :
      (b : Bool) (here rest : Option Found) (k : Sent F → Option (Sent F)) (now : Option (Sent F))
      (sent : Sent F)
      → ((sent : Sent F) → k sent ≡ enter_found rest sent)
      → now ≡ enter_found here sent
      → (if b then k sent else and_then F now k)
        ≡ enter_found (if b then rest else both here rest) sent
  enter_found-if true here rest k now sent tail head = tail sent
  enter_found-if false here rest k now sent tail head =
      ap (λ o. and_then F o k) head ∙ enter_found-both here rest k sent tail

  -- `collect` enters the callbacks in the order of the list, and panics where the list is none.
  mutual
    unfolding collect functions

    pub collect-enter_found :
        (v : Value F) (path : CallbackPath) (sent : Sent F)
        → collect F v path sent ≡ enter_found (functions v path) sent
    collect-enter_found plain path sent = refl
    collect-enter_found nil_interface path sent = refl
    collect-enter_found nil_pointer path sent = refl
    collect-enter_found bare_func path sent = refl
    collect-enter_found (interface_to v) path sent = collect-enter_found v path sent
    collect-enter_found (pointer_to v) path sent = collect_target-enter_found v path sent
    collect-enter_found (slice vs) path sent = collect_elements-enter_found vs 0 path sent
    collect-enter_found (map_of es) path sent = collect_entries-enter_found es path sent
    collect-enter_found (struct fs own by_pointer) path sent =
        ap (then_methods F own path) (collect_fields-enter_found fs path sent)
        ∙ then_methods-both (functions_of fs path) own path sent
    collect-enter_found (function none) path sent = refl
    collect-enter_found (function (some f)) path sent = refl

    collect_target-enter_found :
        (v : Value F) (path : CallbackPath) (sent : Sent F)
        → collect_target F v path sent ≡ enter_found (functions_behind v path) sent
    collect_target-enter_found plain path sent = refl
    collect_target-enter_found nil_interface path sent = refl
    collect_target-enter_found nil_pointer path sent = refl
    collect_target-enter_found bare_func path sent = refl
    collect_target-enter_found (interface_to v) path sent = collect-enter_found v path sent
    collect_target-enter_found (pointer_to v) path sent = collect_target-enter_found v path sent
    collect_target-enter_found (slice vs) path sent = collect_elements-enter_found vs 0 path sent
    collect_target-enter_found (map_of es) path sent = collect_entries-enter_found es path sent
    collect_target-enter_found (struct fs own by_pointer) path sent =
        ap (then_methods F by_pointer path) (collect_fields-enter_found fs path sent)
        ∙ then_methods-both (functions_of fs path) by_pointer path sent
    collect_target-enter_found (function none) path sent = refl
    collect_target-enter_found (function (some f)) path sent = refl

    collect_elements-enter_found :
        (vs : Elements F) (i : ℕ) (path : CallbackPath) (sent : Sent F)
        → collect_elements F vs i path sent ≡ enter_found (functions_in vs i path) sent
    collect_elements-enter_found no_elements i path sent = refl
    collect_elements-enter_found (element v vs) i path sent =
        ap (λ o. and_then F o (collect_elements F vs (i + 1) path))
          (collect-enter_found v (path ++ at_index i ∷ []) sent)
        ∙ enter_found-both (functions v (path ++ at_index i ∷ [])) (functions_in vs (i + 1) path)
            (collect_elements F vs (i + 1) path) sent (collect_elements-enter_found vs (i + 1) path)

    collect_entries-enter_found :
        (es : Entries F) (path : CallbackPath) (sent : Sent F)
        → collect_entries F es path sent ≡ enter_found (functions_under es path) sent
    collect_entries-enter_found no_entries path sent = refl
    collect_entries-enter_found (entry k v es) path sent =
        ap (λ o. and_then F o (collect_entries F es path))
          (collect-enter_found v (path ++ at_name k ∷ []) sent)
        ∙ enter_found-both (functions v (path ++ at_name k ∷ [])) (functions_under es path)
            (collect_entries F es path) sent (collect_entries-enter_found es path)

    collect_fields-enter_found :
        (fs : Fields F) (path : CallbackPath) (sent : Sent F)
        → collect_fields F fs path sent ≡ enter_found (functions_of fs path) sent
    collect_fields-enter_found no_fields path sent = refl
    collect_fields-enter_found (field i v fs) path sent =
        enter_found-if (skipped i) (functions v (field_path i path)) (functions_of fs path)
          (collect_fields F fs path) (collect F v (field_path i path) sent) sent
          (collect_fields-enter_found fs path) (collect-enter_found v (field_path i path) sent)

  abbrev pub count_found : Found → ℕ
  count_found [] = 0
  count_found (x ∷ fs) = suc (count_found fs)

  abbrev pub found_at : Found → ℕ → Option (CallbackPath × F)
  found_at [] i = none
  found_at (x ∷ fs) zero = some x
  found_at (x ∷ fs) (suc i) = found_at fs i

  -- The number that comes next, as long as it does not wrap around.
  enter_all-seq :
      (fs : Found) (s : Scrubber F) (paths : Dict ℕ CallbackPath)
      → s.seq + count_found fs < 2 ^ 64
      → (enter_all fs (s, paths)).0.seq ≡ s.seq + count_found fs
  unfolding enter register
  enter_all-seq [] s paths small = omega arith
  enter_all-seq ((path, f) ∷ fs) s paths small =
      let rest =
        enter_all-seq fs (register F (some f) s).0 (insert s.seq path paths) (omega arith) in
      rest ∙ omega arith

  -- A number below the next one keeps its callback and its path.
  enter_all-below :
      (fs : Found) (s : Scrubber F) (paths : Dict ℕ CallbackPath) (id : ℕ)
      → s.seq + count_found fs < 2 ^ 64
      → id < s.seq
      → (get_callback F id (enter_all fs (s, paths)).0 ≡ get_callback F id s)
        × (lookup id (enter_all fs (s, paths)).1 ≡ lookup id paths)
  unfolding enter register get_callback
  enter_all-below [] s paths id small below = (refl, refl)
  enter_all-below ((path, f) ∷ fs) s paths id small below =
      let (callback, kept) =
        enter_all-below fs (register F (some f) s).0 (insert s.seq path paths) id (omega arith)
          (omega arith) in
      (
        callback ∙ lookup-insert s.seq id f s.callbacks ∙ ground arith,
        kept ∙ lookup-insert s.seq id path paths ∙ ground arith,
      )

  -- A callback is in the table, and its path in the map, under a number.
  abbrev pub IsEntered : Sent F → ℕ → CallbackPath → F → Type 0
  IsEntered sent n path f = (get_callback F n sent.0 ≡ some f) × (lookup n sent.1 ≡ some path)

  -- The callback at a place of the list has the number of that place, counted from the next one.
  enter_all-found_at :
      (fs : Found) (s : Scrubber F) (paths : Dict ℕ CallbackPath) (i : ℕ) (path : CallbackPath)
      (f : F)
      → s.seq + count_found fs < 2 ^ 64
      → found_at fs i ≡ some (path, f)
      → IsEntered (enter_all fs (s, paths)) (s.seq + i) path f
  unfolding enter register get_callback
  enter_all-found_at [] s paths i path f small at = absurd (cc)
  enter_all-found_at ((here, g) ∷ fs) s paths zero path f small at =
      let new = (register F (some g) s).0 in
      let (callback, kept) =
        enter_all-below fs new (insert s.seq here paths) s.seq (omega arith) (omega arith) in
      let same : s.seq ≡ s.seq + zero = omega arith in
      subst (λ n. IsEntered (enter_all fs (new, insert s.seq here paths)) n path f) same
        (
          callback ∙ lookup-insert s.seq s.seq g s.callbacks ∙ ground (arith, at),
          kept ∙ lookup-insert s.seq s.seq here paths ∙ ground (arith, at),
        )
  enter_all-found_at ((here, g) ∷ fs) s paths (suc i) path f small at =
      let new = (register F (some g) s).0 in
      let below = enter_all-found_at fs new (insert s.seq here paths) i path f (omega arith) at in
      let next : (s.seq + 1) % 2 ^ 64 + i ≡ s.seq + suc i = omega arith in
      subst (λ n. IsEntered (enter_all fs (new, insert s.seq here paths)) n path f) next below

  -- What `Scrub` makes of a slice whose functions are all wrapped: with fewer than 2 ^ 64 numbers
  -- given, its callbacks get the next numbers in the order of the list, the callback at place `i`
  -- is found in the table under number `seq + i` and its path is sent under that number, and a
  -- callback that was registered before is still found under its own number.
  pub scrub-functions_in :
      (vs : Elements F) (fs : Found) (s : Scrubber F) (i id : ℕ) (path : CallbackPath) (f : F)
      → functions_in vs 0 [] ≡ some fs
      → s.seq + count_found fs < 2 ^ 64
      → found_at fs i ≡ some (path, f)
      → let sent = enter_all fs (s, []) in
        (scrub F (slice vs) s ≡ some sent)
        × (sent.0.seq ≡ s.seq + count_found fs)
        × IsEntered sent (s.seq + i) path f
        × ((s.seq ≤ id) ⊎ (get_callback F id sent.0 ≡ get_callback F id s))
  unfolding scrub collect functions
  scrub-functions_in vs fs s i id path f listed small at = (
    collect_elements-enter_found vs 0 [] (s, []) ∙ ap (λ o. enter_found o (s, [])) listed,
    enter_all-seq fs s [] small,
    enter_all-found_at fs s [] i path f small at,
    earlier (Bool-cases (ltb id s.seq)),
  )
    where
      earlier :
          (ltb id s.seq ≡ true) ⊎ (ltb id s.seq ≡ false)
          → (s.seq ≤ id) ⊎ (get_callback F id (enter_all fs (s, [])).0 ≡ get_callback F id s)
      earlier (inl e) = inr (enter_all-below fs s [] id small (ground arith)).0
      earlier (inr e) = inl (ground arith)

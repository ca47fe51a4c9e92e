-- ===== src/Method/Chain.antt =====
-- `ServeKite` of method.go against a description that knows the handlers as one list.
use kite.Common.{
  nat_eq, text_eq, ◌≡◌, refl, sym, ap, ◌∙◌, true, Option, none, some, List, [], ◌∷◌, ◌++◌,
}
use kite.Method.{
  MethodHandling, return_method, return_first, return_latest, Ran, returned, panicked, Handler,
  Method, keep_first, Looped, went, stopped, blew_up, run_next, run_handlers, final, choose,
  after_post, after_base, after_pre, serve_kite,
}

module _ (R W V E B : Type 0) where
  -- What a list of handlers leaves when the first error or panic ends it: all answers, or the end.
  pub data Collected : Type 0 where
    answers : List (Option V) → Collected
    failed : E → Collected
    crashed : E → Collected

  abbrev cons_answer : Option V → W × Collected → W × Collected
  cons_answer a (w, answers rs) = (w, answers (a ∷ rs))
  cons_answer a (w, failed e) = (w, failed e)
  cons_answer a (w, crashed e) = (w, crashed e)

  abbrev collect_next : (W → W × Collected) → W × Ran V E → W × Collected
  collect_next rest (w, panicked e) = (w, crashed e)
  collect_next rest (w, returned a (some e)) = (w, failed e)
  collect_next rest (w, returned a none) = cons_answer a (rest w)

  unfoldable pub collect : R → List (Handler R W V E B) → W → W × Collected
  collect r [] w = (w, answers [])
  collect r (h ∷ hs) w = collect_next (collect r hs) (h r w)

  abbrev first_from : Option V → List (Option V) → Option V
  first_from (some v) rs = some v
  first_from none [] = none
  first_from none (a ∷ rs) = first_from a rs

  abbrev last_from : Option V → List (Option V) → Option V
  last_from a [] = a
  last_from a (b ∷ rs) = last_from b rs

  abbrev answer_at : List (Handler R W V E B) → List (Option V) → Option V
  answer_at hs [] = none
  answer_at [] (a ∷ rs) = a
  answer_at (h ∷ hs) (a ∷ rs) = answer_at hs rs

  -- The answer that the handling picks: the answer of the handler behind `pre`, the first that is
  -- not nil, or the last.
  unfoldable pub pick : MethodHandling → List (Handler R W V E B) → List (Option V) → Option V
  pick return_method pre rs = answer_at pre rs
  pick return_first pre rs = first_from none rs
  pick return_latest pre rs = last_from none rs

  abbrev finish : R → Method R W V E B → W × Collected → W × Ran V E
  finish r m (w, answers rs) =
      final R W V E B r m.final_funcs (pick m.handling m.pre_handlers rs) none w
  finish r m (w, failed e) = final R W V E B r m.final_funcs none (some e) w
  finish r m (w, crashed e) = (w, panicked e)

  unfoldable pub serve_as_one_list : Method R W V E B → R → W → W × Ran V E
  serve_as_one_list m r w = finish r m (collect r (m.pre_handlers ++ m.handler ∷ m.post_handlers) w)

  abbrev keep_all : MethodHandling → Option V → List (Option V) → Option V
  keep_all mode first [] = first
  keep_all mode first (a ∷ rs) = keep_all mode (keep_first R W V E B mode a first) rs

  abbrev summed : MethodHandling → Option V → Option V → W × Collected → W × Looped R W V E B
  summed mode first resp (w, answers rs) = (w, went (keep_all mode first rs) (last_from resp rs))
  summed mode first resp (w, failed e) = (w, stopped e)
  summed mode first resp (w, crashed e) = (w, blew_up e)

  summed-cons_answer :
      (mode : MethodHandling) (first resp a : Option V) (c : W × Collected)
      → summed mode first resp (cons_answer a c)
        ≡ summed mode (keep_first R W V E B mode a first) a c
  summed-cons_answer mode first resp a (w, answers rs) = refl
  summed-cons_answer mode first resp a (w, failed e) = refl
  summed-cons_answer mode first resp a (w, crashed e) = refl

  run_handlers-collect :
      (mode : MethodHandling) (r : R) (hs : List (Handler R W V E B)) (first resp : Option V)
      (w : W)
      → run_handlers R W V E B mode r hs first resp w ≡ summed mode first resp (collect r hs w)
  unfolding run_handlers run_next collect
  run_handlers-collect mode r [] first resp w = refl
  run_handlers-collect mode r (h ∷ hs) first resp w =
      from_step (h r w) (run_handlers-collect mode r hs)
    where
      from_step :
          (x : W × Ran V E)
          → ((first resp : Option V) (w : W)
              → run_handlers R W V E B mode r hs first resp w
                ≡ summed mode first resp (collect r hs w))
          → run_next R W V E B mode (run_handlers R W V E B mode r hs) first x
            ≡ summed mode first resp (collect_next (collect r hs) x)
      from_step (w', panicked e) rec = refl
      from_step (w', returned a (some e)) rec = refl
      from_step (w', returned a none) rec =
          rec (keep_first R W V E B mode a first) a w'
          ∙ sym (summed-cons_answer mode first resp a (collect r hs w'))

  abbrev cons_answers : List (Option V) → W × Collected → W × Collected
  cons_answers [] c = c
  cons_answers (a ∷ rs) c = cons_answer a (cons_answers rs c)

  -- What is collected once `rest` runs too.
  abbrev join : (W → W × Collected) → W × Collected → W × Collected
  join rest (w, answers rs) = cons_answers rs (rest w)
  join rest (w, failed e) = (w, failed e)
  join rest (w, crashed e) = (w, crashed e)

  join-cons_answer :
      (a : Option V) (rest : W → W × Collected) (c : W × Collected)
      → join rest (cons_answer a c) ≡ cons_answer a (join rest c)
  join-cons_answer a rest (w, answers rs) = refl
  join-cons_answer a rest (w, failed e) = refl
  join-cons_answer a rest (w, crashed e) = refl

  collect-append :
      (r : R) (hs gs : List (Handler R W V E B)) (w : W)
      → collect r (hs ++ gs) w ≡ join (collect r gs) (collect r hs w)
  unfolding collect
  collect-append r [] gs w = refl
  collect-append r (h ∷ hs) gs w = from_step (h r w) (collect-append r hs gs)
    where
      from_step :
          (x : W × Ran V E)
          → ((w : W) → collect r (hs ++ gs) w ≡ join (collect r gs) (collect r hs w))
          → collect_next (collect r (hs ++ gs)) x
            ≡ join (collect r gs) (collect_next (collect r hs) x)
      from_step (w', panicked e) rec = refl
      from_step (w', returned a (some e)) rec = refl
      from_step (w', returned a none) rec =
          ap (cons_answer a) (rec w') ∙ sym (join-cons_answer a (collect r gs) (collect r hs w'))

  -- The answer behind those of `hs` is the one of the handler behind `hs`.
  abbrev IsBehind : List (Handler R W V E B) → W × Collected → Type 0
  IsBehind hs (w, answers rs) =
      (a : Option V) (qs : List (Option V)) → answer_at hs (rs ++ a ∷ qs) ≡ a
  IsBehind hs (w, failed e) = true ≡ true
  IsBehind hs (w, crashed e) = true ≡ true

  IsBehind-cons :
      (h : Handler R W V E B) (hs : List (Handler R W V E B)) (b : Option V) (c : W × Collected)
      → IsBehind hs c
      → IsBehind (h ∷ hs) (cons_answer b c)
  IsBehind-cons h hs b (w, answers rs) behind = behind
  IsBehind-cons h hs b (w, failed e) behind = refl
  IsBehind-cons h hs b (w, crashed e) behind = refl

  IsBehind-collect : (r : R) (hs : List (Handler R W V E B)) (w : W) → IsBehind hs (collect r hs w)
  unfolding collect
  IsBehind-collect r [] w = λ a qs. refl
  IsBehind-collect r (h ∷ hs) w = from_step (h r w) (IsBehind-collect r hs)
    where
      from_step :
          (x : W × Ran V E)
          → ((w : W) → IsBehind hs (collect r hs w))
          → IsBehind (h ∷ hs) (collect_next (collect r hs) x)
      from_step (w', panicked e) rec = refl
      from_step (w', returned a (some e)) rec = refl
      from_step (w', returned a none) rec = IsBehind-cons h hs a (collect r hs w') (rec w')

  cons_answers-answers :
      (rs qs : List (Option V)) (w : W) → cons_answers rs (w, answers qs) ≡ (w, answers (rs ++ qs))
  cons_answers-answers [] qs w = refl
  cons_answers-answers (a ∷ rs) qs w = ap (cons_answer a) (cons_answers-answers rs qs w)

  cons_answers-failed :
      (rs : List (Option V)) (w : W) (e : E) → cons_answers rs (w, failed e) ≡ (w, failed e)
  cons_answers-failed [] w e = refl
  cons_answers-failed (a ∷ rs) w e = ap (cons_answer a) (cons_answers-failed rs w e)

  cons_answers-crashed :
      (rs : List (Option V)) (w : W) (e : E) → cons_answers rs (w, crashed e) ≡ (w, crashed e)
  cons_answers-crashed [] w e = refl
  cons_answers-crashed (a ∷ rs) w e = ap (cons_answer a) (cons_answers-crashed rs w e)

  keep_all-first_from :
      (first : Option V) (rs : List (Option V))
      → keep_all return_first first rs ≡ first_from first rs
  keep_all-first_from (some v) [] = refl
  keep_all-first_from (some v) (none ∷ rs) = keep_all-first_from (some v) rs
  keep_all-first_from (some v) (some u ∷ rs) = keep_all-first_from (some v) rs
  keep_all-first_from none [] = refl
  keep_all-first_from none (none ∷ rs) = keep_all-first_from none rs
  keep_all-first_from none (some v ∷ rs) = keep_all-first_from (some v) rs

  keep_all-append :
      (mode : MethodHandling) (first : Option V) (rs qs : List (Option V))
      → keep_all mode first (rs ++ qs) ≡ keep_all mode (keep_all mode first rs) qs
  keep_all-append mode first [] qs = refl
  keep_all-append mode first (a ∷ rs) qs =
      keep_all-append mode (keep_first R W V E B mode a first) rs qs

  last_from-append :
      (b a : Option V) (rs qs : List (Option V)) → last_from b (rs ++ a ∷ qs) ≡ last_from a qs
  last_from-append b a [] qs = refl
  last_from-append b a (c ∷ rs) qs = last_from-append c a rs qs

  -- What the two choices see is the same.
  choose-pick :
      (m : Method R W V E B) (a : Option V) (rs qs : List (Option V)) (w : W)
      → IsBehind m.pre_handlers (w, answers rs)
      → choose R W V E B m.handling a
          (keep_all m.handling (keep_first R W V E B m.handling a (keep_all m.handling none rs)) qs)
          (last_from a qs)
        ≡ pick m.handling m.pre_handlers (rs ++ a ∷ qs)
  unfolding choose pick
  choose-pick m a rs qs w behind = by_mode m.handling
    where
      by_mode :
          (mode : MethodHandling)
          → choose R W V E B mode a
              (keep_all mode (keep_first R W V E B mode a (keep_all mode none rs)) qs)
              (last_from a qs)
            ≡ pick mode m.pre_handlers (rs ++ a ∷ qs)
      by_mode return_method = sym (behind a qs)
      by_mode return_first =
          sym (keep_all-append return_first none rs (a ∷ qs))
          ∙ keep_all-first_from none (rs ++ a ∷ qs)
      by_mode return_latest = sym (last_from-append none a rs qs)

  after_post-finish :
      (m : Method R W V E B) (r : R) (a : Option V) (rs : List (Option V)) (w : W)
      → IsBehind m.pre_handlers (w, answers rs)
      → (c : W × Collected)
      → after_post R W V E B r m a
          (summed m.handling (keep_first R W V E B m.handling a (keep_all m.handling none rs)) a c)
        ≡ finish r m (cons_answers rs (cons_answer a c))
  unfolding after_post
  after_post-finish m r a rs w behind (w', answers qs) =
      ap (λ v. final R W V E B r m.final_funcs v none w') (choose-pick m a rs qs w behind)
      ∙ sym (ap (finish r m) (cons_answers-answers rs (a ∷ qs) w'))
  after_post-finish m r a rs w behind (w', failed e) =
      sym (ap (finish r m) (cons_answers-failed rs w' e))
  after_post-finish m r a rs w behind (w', crashed e) =
      sym (ap (finish r m) (cons_answers-crashed rs w' e))

  after_base-finish :
      (m : Method R W V E B) (r : R) (rs : List (Option V)) (w : W)
      → IsBehind m.pre_handlers (w, answers rs)
      → (x : W × Ran V E)
      → after_base R W V E B r m (keep_all m.handling none rs) x
        ≡ finish r m (cons_answers rs (collect_next (collect r m.post_handlers) x))
  unfolding after_base
  after_base-finish m r rs w behind (w', panicked e) =
      sym (ap (finish r m) (cons_answers-crashed rs w' e))
  after_base-finish m r rs w behind (w', returned a (some e)) =
      sym (ap (finish r m) (cons_answers-failed rs w' e))
  after_base-finish m r rs w behind (w', returned a none) =
      ap (after_post R W V E B r m a) (
        run_handlers-collect m.handling r m.post_handlers
          (keep_first R W V E B m.handling a (keep_all m.handling none rs)) a w')
      ∙ after_post-finish m r a rs w behind (collect r m.post_handlers w')

  after_pre-finish :
      (m : Method R W V E B) (r : R) (c : W × Collected)
      → IsBehind m.pre_handlers c
      → after_pre R W V E B r m (summed m.handling none none c)
        ≡ finish r m (join (collect r (m.handler ∷ m.post_handlers)) c)
  unfolding after_pre collect
  after_pre-finish m r (w, answers rs) behind = after_base-finish m r rs w behind (m.handler r w)
  after_pre-finish m r (w, failed e) behind = refl
  after_pre-finish m r (w, crashed e) behind = refl

  -- Serving a request is running the handlers before the method's, the method's own and those
  -- behind it as one list, up to the first error or panic. The answer is the one that the handling
  -- picks (the method's own, the first that is not nil, or the last); on an error there is none. A
  -- panic ends the call at once, and in every other case the final functions see the outcome.
  pub serve_kite-serve_as_one_list :
      (m : Method R W V E B) (r : R) (w : W) → serve_kite R W V E B m r w ≡ serve_as_one_list m r w
  unfolding serve_kite serve_as_one_list
  serve_kite-serve_as_one_list m r w =
      ap (after_pre R W V E B r m) (run_handlers-collect m.handling r m.pre_handlers none none w)
      ∙ after_pre-finish m r (collect r m.pre_handlers w) (IsBehind-collect r m.pre_handlers w)
      ∙ sym (ap (finish r m) (collect-append r m.pre_handlers (m.handler ∷ m.post_handlers) w))

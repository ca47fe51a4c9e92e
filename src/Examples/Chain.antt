-- ===== src/Examples/Chain.antt =====
-- A method with a handler on each side of its own, over a state that counts the calls.
use kite.Common.{
  nat_eq, codes, text_eq, ℕ, suc, ◌+◌, ◌≡◌, refl, true, Option, none, some, List, [], ◌∷◌,
}
use kite.Method.{
  MethodHandling, return_method, return_first, return_latest, returned, Handler, Method, serve_kite,
  FinalFunc,
}
use kite.Method.Chain.{serve_as_one_list, serve_kite-serve_as_one_list}

-- Numbers stand for requests, states, answers, errors and buckets.
abbrev answering : Option ℕ → Handler ℕ ℕ ℕ ℕ ℕ
answering v r w = (suc w, returned v none)

abbrev failing : Handler ℕ ℕ ℕ ℕ ℕ
failing r w = (suc w, returned (some 9) (some 7))

abbrev adding : FinalFunc ℕ ℕ ℕ ℕ ℕ
adding r v e w = (w + 100, returned v e)

abbrev method : MethodHandling → List (Handler ℕ ℕ ℕ ℕ ℕ) → Method ℕ ℕ ℕ ℕ ℕ
method mode behind = record {
  name = codes "square";
  handler = answering (some 2);
  pre_handlers = answering (some 1) ∷ [];
  post_handlers = behind;
  final_funcs = adding ∷ [];
  authenticate = true;
  handling = mode;
  initialized = true;
  bucket = none;
}

serve_kite-return_first :
    serve_kite ℕ ℕ ℕ ℕ ℕ (method return_first (answering (some 3) ∷ [])) 0 0
    ≡ (103, returned (some 1) none)
unfolding serve_kite
serve_kite-return_first = refl

serve_kite-return_method :
    serve_kite ℕ ℕ ℕ ℕ ℕ (method return_method (answering (some 3) ∷ [])) 0 0
    ≡ (103, returned (some 2) none)
unfolding serve_kite
serve_kite-return_method = refl

serve_kite-return_latest :
    serve_kite ℕ ℕ ℕ ℕ ℕ (method return_latest (answering none ∷ [])) 0 0
    ≡ (103, returned none none)
unfolding serve_kite
serve_kite-return_latest = refl

serve_kite-serve_as_one_list_example :
    serve_kite ℕ ℕ ℕ ℕ ℕ (method return_first (failing ∷ answering none ∷ [])) 0 0
    ≡ serve_as_one_list ℕ ℕ ℕ ℕ ℕ (method return_first (failing ∷ answering none ∷ [])) 0 0
serve_kite-serve_as_one_list_example =
    serve_kite-serve_as_one_list ℕ ℕ ℕ ℕ ℕ (method return_first (failing ∷ answering none ∷ [])) 0 0

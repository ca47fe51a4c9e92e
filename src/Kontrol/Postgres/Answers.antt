-- ===== src/Kontrol/Postgres/Answers.antt =====
-- kontrol/postgres.go: the kites that answer a query with a constraint on the version.
use kite.Common.{
  length, nat_eq, Text, text_eq, Result, ok, err, ℕ, ◌≡◌, Option, some, List, [], ◌∷◌,
}
use kite.Protocol.{KontrolQuery, KiteWithToken}
use kite.Kontrol.Kites.{Versions}
use kite.Kontrol.Kites.Filtered.{Chosen, Fits}
use kite.Kontrol.Kites.Shuffled.{IsPlaced}
use kite.Kontrol.Postgres.{Sql, PostgresError, sql_error}

module _ (sql : Sql) (versions : Versions) (perm : ℕ → List ℕ) where
  open sql use {Tables, select_kites}
  open versions use {Constraint}

  -- The answer by the rows: a single row as it is; and otherwise, in an order of their own, exactly
  -- the rows that fit, each once, and no nil.
  abbrev pub IsAnswer :
      Constraint → KontrolQuery → List KiteWithToken → List (Option KiteWithToken) → Type 0
  IsAnswer c q (k ∷ []) answer = answer ≡ some k ∷ []
  IsAnswer c q ks answer =
      (fitting : List KiteWithToken) × Chosen (Fits versions c q) ks fitting
      × IsPlaced (perm (length fitting)) fitting answer
      × (length answer ≡ length fitting)

  abbrev pub Answered :
      Constraint
      → KontrolQuery
      → Result Text (List KiteWithToken)
      → Result PostgresError (List (Option KiteWithToken))
      → Type 0
  Answered c q (err e) got = got ≡ err (sql_error e)
  Answered c q (ok ks) got =
      (answer : List (Option KiteWithToken)) × (got ≡ ok answer) × IsAnswer c q ks answer

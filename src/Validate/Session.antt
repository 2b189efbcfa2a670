-- ===== src/Validate/Session.antt =====
-- internal/validate/validate.go, runQuery and resolveError: one query inside its own transaction,
-- and what a failure means. The database is a parameter: what it answers to the statements sent
-- in one transaction. The deferred rollback ignores its error.
use pgfathom.Base.{
  ◌≡◌, refl, Bool, true, false, Option, none, some, List, [], ◌∷◌, ◌++◌, format_int, text_eq, ℤ,
  ltb_ℤ, if◌then◌else◌, Str, codes, str_eq, pos,
}
use pgfathom.Validate.Options.{statement_timeout_millis}

-- A Go error as the program inspects it: whether the run's context has ended by then, and the code
-- if a *pgconn.PgError is in the chain.
pub record Failure : Type 0 where
  pub context_done : Bool
  pub pg_code : Option Str
  pub message : Str

-- (value, error) as Go returns it: a value only if there is no error.
pub data Result (A : Type 0) : Type 0 where
  err : Failure → Result A
  ok : A → Result A

-- if err != nil { return err }
infixl 5 ◌>>=◌
abbrev pub ◌>>=◌ : {A B : Type 0} → Result A → (A → Result B) → Result B
err e >>= next = err e
ok value >>= next = next value

-- One transaction: whether it begins, what executing a statement in it gives, and what a query
-- gives whose row is scanned into an `A`, after the statements that were executed.
pub record Session (A : Type 0) : Type 0 where
  pub begin : Result (Unit {0})
  pub exec : Str → Result (Unit {0})
  pub query_row : List Str → Str → Result A

-- "SET LOCAL statement_timeout = %d", if the timeout is positive
ceiling : ℤ → List Str
ceiling timeout =
    if ltb_ℤ (pos 0) timeout
    then (codes "SET LOCAL statement_timeout = " ++ format_int (statement_timeout_millis timeout))
      ∷ []
    else []

exec_all : {A : Type 0} → Session A → List Str → Result (Unit {0})
exec_all db [] = ok tt
exec_all db (s ∷ rest) = do _ ← db.exec s; exec_all db rest

unfoldable pub run_query : {A : Type 0} → Session A → Str → ℤ → Result A
unfolding ceiling exec_all
run_query db query timeout = do
  _ ← db.begin
  _ ← exec_all db (ceiling timeout)
  db.query_row (ceiling timeout) query

abbrev pub query_canceled : Str
query_canceled = codes "57014"

abbrev pub insufficient_privilege : Str
insufficient_privilege = codes "42501"

resolve_code : Option Str → Option (Str × Bool)
resolve_code none = none
resolve_code (some code) =
    if str_eq code query_canceled
    then some (codes "validation exceeded the time ceiling", true)
    else if str_eq code insufficient_privilege
    then some (codes "no privilege to read the table", false)
    else none

-- (reason, timedOut) if the failure is resolved
unfoldable pub resolve_error : Failure → Option (Str × Bool)
unfolding resolve_code
resolve_error e = if e.context_done then none else resolve_code e.pg_code

-- A bind that succeeds, taken apart.
module _ {A B : Type 0} where
  pub >>=-eq-ok :
      (first : Result A) (next : A → Result B) {out : B}
      → (first >>= next) ≡ ok out
      → (value : A) × (first ≡ ok value) × (next value ≡ ok out)
  >>=-eq-ok (err e) next h = cc
  >>=-eq-ok (ok value) next h = (value, refl, h)

-- ===== src/Validate/Options/Ceiling.antt =====
-- internal/validate/validate.go, statementTimeoutMillis.
use pgfathom.Base.{
  ℕ, ◌+◌, ◌*◌, ◌/◌, ◌≤◌, ◌<◌, ◌≡◌, ◌⊎◌, inl, inr, arith, text_eq, ltb, if◌then◌else◌, Bool-cases,
  pos,
}
use pgfathom.Validate.Options.{statement_timeout_millis}

-- A timeout becomes a whole number of milliseconds, at least 1, so it is never the 0 that switches
-- the server's ceiling off. It is 1 for a timeout below 1 ms; any other timeout is rounded down: the
-- ceiling is at most the timeout, and less than 1 ms short of it.
pub statement_timeout_millis_bounds :
    (t : ℕ)
    → (ms : ℕ) × (statement_timeout_millis (pos t) ≡ pos ms)
      × (1 ≤ ms)
      × (((t < 1000000) × (ms ≡ 1)) ⊎ ((ms * 1000000 ≤ t) × (t < (ms + 1) * 1000000)))
unfolding statement_timeout_millis
statement_timeout_millis_bounds t = (
  if ltb (t / 1000000) 1 then 1 else t / 1000000,
  ground arith,
  ground arith,
  elim (Bool-cases (ltb t 1000000)) [
    | inl e ↦ inl (ground arith, ground arith)
    | inr e ↦ inr (ground arith, ground arith)
  ],
)

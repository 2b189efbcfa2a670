-- ===== src/Db/Redaction.antt =====
-- internal/db/dsn.go, Describe: the password.
use pgfathom.Base.{◌≡◌, refl, ◌≢◌, some, [], arith, text_eq, Str, codes, str_eq_iff}
use pgfathom.Db.{Config, describe, part_if}

part_if-constant : (p q part : Str) → p ≢ [] → q ≢ [] → part_if p part ≡ part_if q part
part_if-constant p q part hp hq = ground (arith, str_eq_iff p [], str_eq_iff q [])

-- The name of a connection is the same for any two passwords that are not empty: it tells nothing of
-- a password but that there is one.
pub describe-password :
    (cfg : Config) (p q : Str)
    → p ≢ []
    → q ≢ []
    → describe (some (record cfg { password = p })) ≡ describe (some (record cfg { password = q }))
unfolding describe
describe-password cfg p q hp hq = rw (part_if-constant p q (codes "password=[redacted]") hp hq) refl

-- ===== src/Witnesses/Db.antt =====
-- The theorem on connection names at a concrete input.
use pgfathom.Base.{◌≡◌, ◌≢◌, some, [], text_eq, Str, codes}
use pgfathom.Db.{Config, describe}
use pgfathom.Db.Redaction.{describe-password}

abbrev local : Config
local = record {
  host = codes "localhost";
  port = 5432;
  user = codes "app";
  database = codes "shop";
  password = [];
}

abbrev first_password : Str
first_password = codes "hunter2"

abbrev second_password : Str
second_password = codes "swordfish"

first_set : first_password ≢ []
first_set = λ e. cc

second_set : second_password ≢ []
second_set = λ e. cc

describe-password_example :
    describe (some (record local { password = first_password }))
    ≡ describe (some (record local { password = second_password }))
describe-password_example =
    describe-password local first_password second_password first_set second_set

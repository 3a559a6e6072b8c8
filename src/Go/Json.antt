-- ===== src/Go/Json.antt =====
-- `encoding/json`, which the program calls and does not implement: a parameter. `unmarshal_fields`
-- is `json.Unmarshal` into a `map[string]json.RawMessage`; `marshal_status` is `json.Marshal` of
-- the status document with the version's name and protocol, `players.max`, `players.online` 0
-- and the description, which is raw JSON that `Marshal` may refuse.
use ciallo.Common.{ℕ, Bytes, Option}
use ciallo.Common.Int.{ℤ}
use ciallo.Common.Dict.{Dict}
use ciallo.Go.Errors.{Result}

pub record Json : Type 0 where
  pub unmarshal_fields : Bytes → Option (Dict Bytes Bytes)
  pub marshal_status : Bytes → ℕ → ℤ → Bytes → Result Bytes

-- ===== src/Gateway/Timestamps.antt =====
-- `_parse_ts` of backend/gateway/handler_v16.py and of handler_v201.py.
use Prim.Native.Char.{code}
use Prim.Native.String.{◌++◌ as str_append}
use charge_pulse.Prelude.{ℕ, String, Option, none, some, ◌==◌, if◌then◌else◌, truthy}

-- `value.replace("Z", "+00:00")`
unfoldable pub replace_z : String → String
replace_z String.[] = ""
replace_z (String.◌∷◌ c s) =
    let rest = replace_z s in if code c == b'Z' then str_append "+00:00" rest else String.◌∷◌ c rest

-- `fromisoformat` is `datetime.fromisoformat`, with `none` for the ValueError.
unfoldable pub parse_ts : (String → Option ℕ) → Option String → Option ℕ
unfolding replace_z truthy
parse_ts fromisoformat value = elim (truthy value) [
  | none ↦ none
  | some v ↦ fromisoformat (replace_z v)
]

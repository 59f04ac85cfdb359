-- ===== src/Base/Host.antt =====
-- What the program takes from Python's library and no theorem here depends on: the hash, the three
-- spellings of json.dumps that it uses, and the rounding of a float.
use Prim.Native.Nat.{ℕ}
use Prim.Native.String.{String}
use research_ops_automation.Base.Json.{Json}

pub record Host : Type 0 where
  -- hashlib.sha256(text.encode()).hexdigest()
  pub sha256 : String → String
  -- json.dumps(value, sort_keys=True)
  pub dumps : Json → String
  -- the same with ensure_ascii=False
  pub dumps_unicode : Json → String
  -- the same with ensure_ascii=False and separators=(",", ":")
  pub canonical : Json → String
  -- round(seconds * 1000) of a number of microseconds
  pub round_ms : ℕ → ℕ

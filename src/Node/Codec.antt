-- ===== src/Node/Codec.antt =====
-- What the protocol takes from Python's library: the UTF-8 of a text, the reading of a JSON text from bytes
-- (`decode` and `json.loads`, an object with all the pairs that it is written with), SHA-256 in hexadecimal, and
-- whether a time in ISO format has an offset (`datetime.fromisoformat`; none where that raises).
use ameme.Base.{String, Bool, Option}
use ameme.Base.Bytes.{Bytes}
use ameme.Json.{Json}

pub record Codec : Type 0 where
  pub encode : String → Bytes
  pub loads : Bytes → Option Json
  pub sha256_hex : Bytes → String
  pub has_offset : String → Option Bool
